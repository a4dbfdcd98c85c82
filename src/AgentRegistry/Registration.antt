-- ===== src/AgentRegistry/Registration.antt =====
-- What a registration leaves in the table.
use oma_server.Common.{
  ℕ, ◌≡◌, refl, true, false, ◌&&◌, String, List, [], ◌∷◌, if◌then◌else◌, ◌==◌, ok, err, World,
  fails, spent, arith, inl, inr, Result-cases, sym, subst,
}
use oma_server.AgentRegistry.Model.{
  Agent, Shown, Status, RegisterCommand, ParseUrl, validate_register,
}
use oma_server.AgentRegistry.Tables.{
  Tables, has_named, find_named, refreshed, refresh_rows, upsert, upsert_row,
}
use oma_server.AgentRegistry.Service.{register, new_agent, seconds}

-- The row that the upsert makes of a new agent.
unfoldable pub settled : Agent → List Agent → Agent
unfolding refreshed
settled new rows = elim (find_named new.owner_id new.name rows) [
  | ok a ↦ refreshed new a
  | err _ ↦ new
]

find_named-has_named :
    (owner name : String) (rows : List Agent)
    → has_named owner name rows
      ≡ (elim (find_named owner name rows) [ ok _ ↦ true | err _ ↦ false ])
unfolding has_named find_named
find_named-has_named owner name [] = refl
find_named-has_named owner name (a ∷ rows) = ground (arith, find_named-has_named owner name rows)

find_named-refresh_rows :
    (new : Agent) (owner name : String) (rows : List Agent)
    → find_named owner name (refresh_rows new rows) ≡ (elim (find_named owner name rows) [
      | err e ↦ err e
      | ok a ↦ if new.owner_id == owner && new.name == name then ok (refreshed new a) else ok a
    ])
unfolding find_named refresh_rows refreshed
find_named-refresh_rows new owner name [] = refl
find_named-refresh_rows new owner name (a ∷ rows) =
    ground (arith, find_named-refresh_rows new owner name rows)

-- After an upsert that succeeds, the key of the new agent finds the row made of it, and all other
-- keys find what they did.
find_named-upsert_row :
    (new : Agent) (owner name : String) (t : Tables)
    → (upsert_row new t).0 ≡ ok tt
    → find_named owner name (upsert_row new t).1.agents ≡ (
        if new.owner_id == owner && new.name == name
        then ok (settled new t.agents)
        else find_named owner name t.agents)
unfolding upsert_row settled find_named
find_named-upsert_row new owner name t h = ground (
  arith,
  find_named-has_named new.owner_id new.name t.agents,
  find_named-refresh_rows new owner name t.agents,
)

-- What the registration with command `cmd` makes of the rows `before`.
pub record Registers (t : ℕ) (new_id : String) (cmd : RegisterCommand) (before after : List Agent)
    (a : Agent) : Type 0 where
  pub id : a.id ≡ (elim (find_named cmd.owner_id cmd.name before) [ ok b ↦ b.id | err _ ↦ new_id ])
  pub created_at :
      a.created_at
      ≡ (elim (find_named cmd.owner_id cmd.name before) [ ok b ↦ b.created_at | err _ ↦ t ])
  pub owner_id : a.owner_id ≡ cmd.owner_id
  pub name : a.name ≡ cmd.name
  pub model : a.model ≡ cmd.model
  pub version : a.version ≡ cmd.version
  pub alive : a.last_heartbeat_at ≡ t
  pub updated_at : a.updated_at ≡ t
  pub endpoint_url : a.endpoint_url ≡ cmd.endpoint_url
  pub capabilities : a.capabilities ≡ cmd.capabilities
  pub tags : a.tags ≡ cmd.tags
  pub found :
      (owner name : String)
      → find_named owner name after
        ≡ (if cmd.owner_id == owner && cmd.name == name then ok a else find_named owner name before)

find_named-same :
    (owner name : String) (rows : List Agent) (a : Agent)
    → find_named owner name rows ≡ ok a
    → (a.owner_id ≡ owner) × (a.name ≡ name)
unfolding find_named
find_named-same owner name [] a h = absurd (ground arith)
find_named-same owner name (b ∷ rows) a h = ground (arith, find_named-same owner name rows a)

settled-named :
    (new : Agent) (rows : List Agent)
    → ((settled new rows).owner_id ≡ new.owner_id) × ((settled new rows).name ≡ new.name)
unfolding settled refreshed
settled-named new rows = elim (Result-cases (find_named new.owner_id new.name rows)) [
  | inl (a, h) ↦ ground (arith, find_named-same new.owner_id new.name rows a h)
  | inr (e, h) ↦ ground arith
]

upsert-settled :
    (new : Agent) (w : World Tables) (a : Agent)
    → (upsert new w).0 ≡ ok a
    → ((upsert_row new w.tables).0 ≡ ok tt)
      × ((upsert new w).1.tables ≡ (upsert_row new w.tables).1)
      × (a ≡ settled new w.tables.agents)
unfolding upsert fails spent settled
upsert-settled new w a h =
    let r = Result-cases (upsert_row new w.tables).0 in
    ground (arith, find_named-upsert_row new new.owner_id new.name w.tables)

registered :
    (t : ℕ) (new_id : String) (cmd : RegisterCommand) (w : World Tables) (a : Agent)
    → (upsert (new_agent t new_id cmd) w).0 ≡ ok a
    → Registers t new_id cmd w.tables.agents (upsert (new_agent t new_id cmd) w).1.tables.agents a
unfolding settled refreshed new_agent
registered t new_id cmd w a h =
    let new = new_agent t new_id cmd in
    let (done, after, row) = upsert-settled new w a h in
    record {
      id = ground arith;
      created_at = ground arith;
      owner_id = ground (arith, settled-named new w.tables.agents);
      name = ground (arith, settled-named new w.tables.agents);
      model = ground arith;
      version = ground arith;
      alive = ground arith;
      updated_at = ground arith;
      endpoint_url = ground arith;
      capabilities = ground arith;
      tags = ground arith;
      found = λ owner name. ground (arith, find_named-upsert_row new owner name w.tables);
    }

-- An agent that is registered is online: its row has the owner, the name, the URL, the capabilities,
-- the tags, the model and the version of the normalised command, and now as the time of its
-- heartbeat and of its update. One that was there under the same owner and name keeps its id and
-- its time of creation, another gets the fresh id and now; all other agents are found as before.
pub register-Registers :
    (parse : ParseUrl) (now : ℕ) (new_id : String) (raw : RegisterCommand) (w : World Tables)
    (sh : Shown)
    → (register parse now new_id raw w).0 ≡ ok sh
    → (cmd : RegisterCommand) × (validate_register parse raw ≡ ok cmd)
      × (sh.status ≡ Status.online)
      × Registers
          (seconds now)
          new_id
          cmd
          w.tables.agents
          (register parse now new_id raw w).1.tables.agents
          sh.agent
unfolding register
register-Registers parse now new_id raw w sh h = elim (Result-cases (validate_register parse raw)) [
  | inr (e, k) ↦ absurd (ground arith)
  | inl (cmd, k) ↦ elim (Result-cases (upsert (new_agent (seconds now) new_id cmd) w).0) [
    | inr (e, l) ↦ absurd (ground arith)
    | inl (a, l) ↦
        let same : sh.agent ≡ a = ground arith in
        let after : (register parse now new_id raw w).1
            ≡ (upsert (new_agent (seconds now) new_id cmd) w).1 =
          ground arith in
        (
          cmd,
          k,
          ground arith,
          subst (λ x. Registers (seconds now) new_id cmd w.tables.agents x.tables.agents sh.agent)
              (sym after)
              (subst (Registers (seconds now) new_id cmd w.tables.agents _) (sym same)
                (registered (seconds now) new_id cmd w a l)),
        )
  ]
]
