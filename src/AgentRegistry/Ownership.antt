-- ===== src/AgentRegistry/Ownership.antt =====
-- Only its owner keeps an agent alive or takes it from the registry.
use oma_server.Common.{
  ℕ, ◌≡◌, refl, true, false, String, List, [], ◌∷◌, if◌then◌else◌, Driver, Result, ok, err, World,
  fails, spent, arith,
}
use oma_server.AgentRegistry.Model.{Agent, RegistryError, not_found, forbidden}
use oma_server.AgentRegistry.Tables.{
  Tables, has_owned, has_id, touch, touch_rows, touched, has_other_times, delete_owned,
  delete_owned_rows, find_agent,
}
use oma_server.AgentRegistry.Service.{
  heartbeat, deregister, classified, classify_owner_miss, seconds,
}

find_agent-has_id :
    (id : String) (rows : List Agent)
    → has_id id rows ≡ (elim (find_agent id rows) [ ok _ ↦ true | err _ ↦ false ])
unfolding has_id find_agent
find_agent-has_id id [] = refl
find_agent-has_id id (a ∷ rows) = ground (arith, find_agent-has_id id rows)

has_owned-touch_rows :
    (id owner : String) (t : ℕ) (rows : List Agent)
    → has_owned id owner (touch_rows id owner t rows) ≡ has_owned id owner rows
unfolding has_owned touch_rows
has_owned-touch_rows id owner t [] = refl
has_owned-touch_rows id owner t (a ∷ rows) = ground (arith, has_owned-touch_rows id owner t rows)

has_id-touch_rows :
    (id owner k : String) (t : ℕ) (rows : List Agent)
    → has_id k (touch_rows id owner t rows) ≡ has_id k rows
unfolding has_id touch_rows
has_id-touch_rows id owner k t [] = refl
has_id-touch_rows id owner k t (a ∷ rows) = ground (arith, has_id-touch_rows id owner k t rows)

-- A row that the update counts is there.
touched-has_owned :
    (d : Driver) (id owner : String) (t : ℕ) (rows : List Agent)
    → has_owned id owner rows ≡ false
    → touched d id owner t rows ≡ false
unfolding touched has_owned has_other_times
touched-has_owned Driver.sqlite id owner t rows h = h
touched-has_owned Driver.mysql id owner t [] h = refl
touched-has_owned Driver.mysql id owner t (a ∷ rows) h =
    ground (arith, touched-has_owned Driver.mysql id owner t rows)

has_id-delete_owned_rows :
    (id owner : String) (rows : List Agent)
    → has_owned id owner rows ≡ false
    → delete_owned_rows id owner rows ≡ rows
unfolding has_owned delete_owned_rows
has_id-delete_owned_rows id owner [] h = refl
has_id-delete_owned_rows id owner (a ∷ rows) h =
    ground (arith, has_id-delete_owned_rows id owner rows)

-- What the call answers whose table has these rows.
unfoldable pub owner_answer : String → String → List Agent → Result RegistryError (Unit {0})
owner_answer id owner rows =
    if has_owned id owner rows
    then ok tt
    else if has_id id rows
    then err forbidden
    else err not_found

-- Where no statement fails, a heartbeat succeeds exactly for the owner of the agent, is forbidden to
-- others and finds nothing for an id that is not there, with both databases, also where it repeats
-- a heartbeat of the same second.
pub heartbeat-owner_answer :
    (d : Driver) (now : ℕ) (id owner : String) (w : World Tables)
    → w.faults ≡ []
    → (heartbeat d now id owner w).0 ≡ owner_answer id owner w.tables.agents
unfolding heartbeat classified classify_owner_miss touch owner_answer fails spent
heartbeat-owner_answer d now id owner w h =
    let rows = w.tables.agents in
    let t = seconds now in
    ground (
      arith,
      touched-has_owned d id owner t rows,
      has_owned-touch_rows id owner t rows,
      has_id-touch_rows id owner id t rows,
      find_agent-has_id id (touch_rows id owner t rows),
    )

pub deregister-owner_answer :
    (id owner : String) (w : World Tables)
    → w.faults ≡ []
    → (deregister id owner w).0 ≡ owner_answer id owner w.tables.agents
unfolding deregister classified classify_owner_miss delete_owned owner_answer fails spent
deregister-owner_answer id owner w h =
    let rows = w.tables.agents in
    ground (
      arith,
      has_id-delete_owned_rows id owner rows,
      find_agent-has_id id (delete_owned_rows id owner rows),
      find_agent-has_id id rows,
    )
