-- ===== src/ServiceAccount/Tests.antt =====
-- One service account with a key, and the calls on it.
use oma_server.Common.{
  ℕ, ◌<◌, ◌≡◌, ◌≢◌, refl, true, false, String, List, [], ◌∷◌, Option, none, some, ok, World, arith,
  text_dec, Bool-cases, fails, spent,
}
use oma_server.Auth.Member.{Claims}
use oma_server.ServiceAccount.Model.{
  ServiceAccount, ServiceAccountKey, IssueKeyCommand, is_usable, revoked, validate_issue,
}
use oma_server.ServiceAccount.Tables.{
  Tables, find_account, find_key_for_auth, save_key, has_key, has_hash, revoke_account, has_active,
  revoke_rows, revoke_keys_of, joined_with,
}
use oma_server.ServiceAccount.Service.{
  AccessGate, issue_key, delete_account, authenticate, claims_of, new_key, is_stale, verdict, made,
}
use oma_server.ServiceAccount.Revocation.{
  AccountCall, call_all, Accepts, authenticate-Accepts, delete_account-locks, call,
}
use oma_server.ServiceAccount.Tokens.{authenticate-issue_key}

abbrev bot : ServiceAccount
bot = record {
  id = "bot";
  name = "Bot";
  description = "";
  owner_member_id = "ada";
  created_at = 1;
  updated_at = 1;
  created_by = "root";
  revoked_at = 0;
}

abbrev key : ServiceAccountKey
key = record {
  id = "k1";
  account_id = "bot";
  token_hash = "secret";
  created_at = 1;
  expires_at = 0;
  last_used_at = 0;
  revoked_at = 0;
  created_by = "root";
}

abbrev world : List ServiceAccountKey → World Tables
world ks = record { tables = record { accounts = bot ∷ []; keys = ks }; faults = [] }

abbrev open_gate : AccessGate
open_gate = record { require_admin = λ _. none; require_active_member = λ _. none }

-- A token is its own hash.
abbrev same : String → String
same s = s

accepted : (authenticate same 5 "secret" (world (key ∷ []))).0 ≡ ok (claims_of bot, some "k1")
unfolding authenticate fails find_key_for_auth text_dec Bool-cases find_account revoked is_usable
    is_stale
accepted = refl

authenticate-Accepts_example :
    (k : ServiceAccountKey) × (a : ServiceAccount) × Accepts same 5 "secret"
      (world (key ∷ [])).tables
      k
      a
      (claims_of bot)
authenticate-Accepts_example =
    authenticate-Accepts same 5 "secret" (world (key ∷ [])) (claims_of bot, some "k1") accepted

abbrev request : IssueKeyCommand
request = record { actor_id = "root"; account_id = "bot"; expires_at = 0 }

abbrev issued : ServiceAccountKey
issued = new_key 3 "k2" request "bot" "fresh"

issue_done :
    (issue_key open_gate 3 "k2" (some ("fresh", "fresh")) request (world (key ∷ []))).0
    ≡ ok (issued, "fresh")
unfolding issue_key validate_issue fails find_account text_dec Bool-cases revoked spent save_key
    has_key new_key has_hash
issue_done = refl

issued_usable : is_usable 9 issued ≡ true
unfolding is_usable new_key
issued_usable = refl

abbrev then_world : World Tables
then_world = record {
  tables =
      (issue_key open_gate 3 "k2" (some ("fresh", "fresh")) request (world (key ∷ []))).1.tables;
  faults = [];
}

up : fails then_world ≡ false
unfolding fails
up = refl

authenticate-issue_key_example :
    (a : ServiceAccount) × (p : Claims × Option String) × (a.id ≡ "bot")
    × (◌≡◌ {A = String} "fresh" "fresh")
    × ((authenticate same 9 "fresh" then_world).0 ≡ ok p)
    × (p.0 ≡ claims_of a)
authenticate-issue_key_example =
    authenticate-issue_key open_gate same 3 9 "k2" "fresh" "fresh" request (world (key ∷ []))
      then_world (issued, "fresh") refl issue_done refl up issued_usable

-- Another account with a key of its own.
abbrev other : ServiceAccount
other = record bot { id = "other" }

abbrev two : World Tables
two = record {
  tables = record {
    accounts = bot ∷ other ∷ [];
    keys = key ∷ record key { id = "k3"; account_id = "other"; token_hash = "theirs" } ∷ [];
  };
  faults = [];
}

abbrev afterwards : List (ℕ × AccountCall)
afterwards = (8, AccountCall.issue "k4" (some ("again", "again")) request) ∷ []

removed : (delete_account open_gate 7 "root" "bot" two).0 ≡ ok tt
unfolding delete_account fails revoke_account has_active text_dec Bool-cases spent
removed = refl

other_accepted :
    (authenticate same 9 "theirs"
      (call_all open_gate afterwards (delete_account open_gate 7 "root" "bot" two).1)).0
    ≡ ok (claims_of other, some "k3")
unfolding authenticate fails call_all call issue_key validate_issue delete_account revoke_account
    has_active text_dec Bool-cases spent find_account revoke_rows revoked find_key_for_auth
    revoke_keys_of is_usable is_stale made new_key verdict has_key has_hash joined_with save_key
    claims_of
other_accepted = refl

seven : ◌<◌ 0 7
seven = omega arith

delete_account-locks_example : (claims_of other).member_id ≢ "bot"
delete_account-locks_example =
    delete_account-locks open_gate same 7 9 "root" "bot" "theirs" afterwards two
      (claims_of other, some "k3") seven removed other_accepted
