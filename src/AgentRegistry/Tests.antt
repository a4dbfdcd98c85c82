-- ===== src/AgentRegistry/Tests.antt =====
-- A registry with one agent, and the calls on it.
use oma_server.AgentRegistry.Column.{json_elem_like}
use oma_server.Common.{
  ℕ, ◌*◌, ◌≡◌, ◌≢◌, refl, true, false, ◌&&◌, String, List, [], ◌∷◌, none, some, ok, World, arith,
  Driver, ◌==◌, ne_of_false, sym, has_part, has_part-append, text_dec, Bool-cases, trim_space,
  contains, fails, spent, spend,
}
use oma_server.AgentRegistry.Model.{
  Agent, Shown, Status, RegisterCommand, ParseUrl, validate_register, validate_filter, nanos,
  no_filter, known_status, matches, status_allowed, status_name, compute_status,
}
use oma_server.AgentRegistry.Tables.{
  Tables, A2aKey, upsert, has_named, has_id, listed, get_active, save_key_row, find_agent,
}
use oma_server.AgentRegistry.Service.{
  Gate, register, heartbeat, discover, sweep, seconds, shown_at, new_agent,
}
use oma_server.AgentRegistry.Broker.{
  TokenSigner, Cipher, Broker, A2aToken, enable_broker, mint_token, public_key,
}
use oma_server.AgentRegistry.Validation.{IsValid, validate_register-IsValid}
use oma_server.AgentRegistry.Registration.{Registers, register-Registers}
use oma_server.AgentRegistry.Uniqueness.{IsRegistry, RegistryCall, serve_all, serve_all-IsRegistry}
use oma_server.AgentRegistry.Ownership.{owner_answer, heartbeat-owner_answer}
use oma_server.AgentRegistry.Prefilter.{is_safe}
use oma_server.AgentRegistry.Discovery.{any, asked, discover-asked}
use oma_server.AgentRegistry.Sweeping.{is_alive, sweep-any}
use oma_server.AgentRegistry.Tokens.{Decrypts, enable_broker-again}
use oma_server.AgentRegistry.Minting.{Mints, mint_token-Mints}

-- Every text is a URL of one host.
abbrev parse : ParseUrl
parse raw = some ("https", "host")

abbrev command : RegisterCommand
command = record {
  owner_id = "ada";
  name = " scout ";
  endpoint_url = "https://host/";
  capabilities = "review" ∷ " review " ∷ "" ∷ [];
  tags = [];
  model = "m";
  version = "1";
}

abbrev clean : RegisterCommand
clean = record {
  owner_id = "ada";
  name = "scout";
  endpoint_url = "https://host";
  capabilities = "review" ∷ [];
  tags = [];
  model = "m";
  version = "1";
}

valid : validate_register parse command ≡ ok clean
unfolding validate_register text_dec Bool-cases trim_space contains
valid = refl

validate_register-IsValid_example : IsValid parse clean
validate_register-IsValid_example = validate_register-IsValid parse command clean valid

abbrev scout : Agent
scout = record {
  id = "a1";
  owner_id = "ada";
  name = "scout";
  endpoint_url = "https://old";
  capabilities = [];
  tags = [];
  model = "";
  version = "";
  last_heartbeat_at = 100;
  created_at = 90;
  updated_at = 100;
}

abbrev world : World Tables
world = record { tables = record { agents = scout ∷ []; keys = [] }; faults = [] }

abbrev clock : ℕ
clock = nanos 110

abbrev again : Shown
again = record {
  agent = record {
    id = "a1";
    owner_id = "ada";
    name = "scout";
    endpoint_url = "https://host";
    capabilities = "review" ∷ [];
    tags = [];
    model = "m";
    version = "1";
    last_heartbeat_at = 110;
    created_at = 90;
    updated_at = 110;
  };
  status = Status.online;
  owner_name = "";
}

registered : (register parse clock "a2" command world).0 ≡ ok again
unfolding register validate_register text_dec Bool-cases trim_space contains upsert fails has_named
    new_agent spent
registered = refl

register-Registers_example :
    (cmd : RegisterCommand) × (validate_register parse command ≡ ok cmd)
    × (again.status ≡ Status.online)
    × Registers
        (seconds clock)
        "a2"
        cmd
        world.tables.agents
        (register parse clock "a2" command world).1.tables.agents
        again.agent
register-Registers_example = register-Registers parse clock "a2" command world again registered

abbrev open_gate : Gate
open_gate _ = none

abbrev calls : List RegistryCall
calls =
    RegistryCall.register_call clock "a2" command
    ∷ RegistryCall.heartbeat_call clock "a1" "bob"
    ∷ RegistryCall.sweep_call clock
    ∷ RegistryCall.admin_delete_call "root" "a1"
    ∷ []

world-IsRegistry : IsRegistry world.tables.agents
unfolding has_id has_named
world-IsRegistry = (refl, refl, tt)

serve_all-IsRegistry_example :
    IsRegistry (serve_all parse open_gate Driver.mysql calls world).tables.agents
serve_all-IsRegistry_example =
    serve_all-IsRegistry parse open_gate Driver.mysql calls world world-IsRegistry

heartbeat-owner_answer_example :
    (heartbeat Driver.mysql (nanos 100) "a1" "ada" world).0
    ≡ owner_answer "a1" "ada" world.tables.agents
heartbeat-owner_answer_example =
    heartbeat-owner_answer Driver.mysql (nanos 100) "a1" "ada" world refl

abbrev lease : ℕ
lease = 45 * 1000000000

abbrev lower : String → String
lower s = s

any_filter_valid : validate_filter lower no_filter ≡ ok no_filter
unfolding validate_filter known_status text_dec Bool-cases trim_space
any_filter_valid = refl

nothing_safe : is_safe "" ≡ true
unfolding is_safe text_dec Bool-cases
nothing_safe = refl

abbrev found : List Shown
found = shown_at clock lease scout ∷ []

discovered_one : (discover lower has_part clock lease no_filter world).0 ≡ ok found
unfolding discover validate_filter known_status text_dec Bool-cases trim_space fails listed
    json_elem_like matches status_allowed status_name compute_status
discovered_one = refl

discover-asked_example :
    any (λ x. x.agent.id == "a1") found
    ≡ any (λ a. asked lower clock lease no_filter a && a.id == "a1") world.tables.agents
unfolding shown_at
discover-asked_example =
    discover-asked (λ x. x.agent.id == "a1") lower has_part clock lease no_filter no_filter world
      found has_part-append any_filter_valid nothing_safe nothing_safe discovered_one

sweep-any_example :
    any (λ a. is_alive clock lease a && a.id == "a1") (sweep clock world).1.tables.agents
    ≡ any (λ a. is_alive clock lease a && a.id == "a1") world.tables.agents
sweep-any_example = sweep-any (λ a. a.id == "a1") clock lease world (omega arith)

abbrev pair : A2aKey
pair = record {
  kid = "k1";
  private_key_pem = "secret";
  public_key_pem = "public";
  active = false;
  created_at = 0;
}

abbrev signer : TokenSigner
signer = record { generate_key = some pair; mint = λ key claims. some claims.audience }

-- A cipher that changes nothing.
abbrev plain : Cipher
plain = record { encrypt = λ x. some x; decrypt = λ y. some y }

plain-Decrypts : Decrypts plain
plain-Decrypts x y h = sym h

abbrev broker : Broker
broker = record {
  signer = signer;
  token_ttl = 5;
  key = record pair { active = true; created_at = 110 };
}

started : (enable_broker signer plain 5 clock world).0 ≡ ok broker
unfolding enable_broker fails get_active spent save_key_row
started = refl

abbrev left_world : World Tables
left_world = (enable_broker signer plain 5 clock world).1

restarted : (enable_broker signer plain 5 (nanos 500) left_world).0 ≡ ok broker
unfolding enable_broker fails get_active spent save_key_row
restarted = refl

enable_broker-again_example :
    (broker.key ≡ broker.key) × (public_key (some broker) ≡ public_key (some broker))
enable_broker-again_example =
    enable_broker-again signer signer plain 5 5 clock (nanos 500) world left_world broker broker
      plain-Decrypts started refl restarted

abbrev token : A2aToken
token = record { token = "a1"; expires_in = 5; audience_agent_id = "a1" }

minted : (mint_token has_part clock "j1" (some broker) "ada" "a1" world).0 ≡ ok token
unfolding mint_token fails find_agent text_dec Bool-cases
minted = refl

named : ◌≢◌ {A = String} "ada" ""
named = ne_of_false "ada" "" refl

mint_token-Mints_example :
    (b : Broker) × (some broker ≡ some b)
    × Mints clock "j1" b "ada" "a1" world.tables.agents (fails (spend world)) token
mint_token-Mints_example =
    mint_token-Mints has_part clock "j1" (some broker) "ada" "a1" world token named minted
