-- ===== src/Project/Caps.antt =====
-- The cap of conversations per owner over the calls of the service.
use Prim.Native.String.{String}
use oma_server.Common.{
  ℕ, suc, ◌≤◌, ◌<◌, ◌≡◌, refl, sym, subst, true, false, List, [], ◌∷◌, Option, none, some, ◌==◌,
  text_dec, ok, World, query, arith, inl, inr, Option-cases, Result-cases, ◌>>◌,
}
use oma_server.Project.Model.{
  Conversation, UpsertProjectCommand, UpsertConversationCommand, db_error, normalize_conversation,
  validate_conversation,
}
use oma_server.Project.Tables.{
  Tables, Db, upsert_project, upsert_project_row, delete_project_row, delete_filed_rows,
  has_conversation, refile_rows, upsert_conversation_row, upsert_conversation, find_conversation,
  count_by_owner, id_of, find_id_by_client, delete_conversation_rows, delete_conversation_row,
}
use oma_server.Project.Service.{
  Surroundings, sync_project, delete_project, check_project, check_count, check_cap, chosen_id,
  store_content, store_conversation, new_conversation, admit_conversation, sync_conversation,
  delete_conversation,
}

pub data Request : Type 0 where
  put_project : ℕ → String → UpsertProjectCommand → Request
  remove_project : String → String → Request
  put_conversation : ℕ → String → UpsertConversationCommand → Request
  remove_conversation : String → String → Request

unfoldable pub serve : Surroundings → Request → World Tables → World Tables
serve env (Request.put_project now new_id cmd) w = (sync_project env.cut now new_id cmd w).1
serve env (Request.remove_project owner id) w = (delete_project owner id w).1
serve env (Request.put_conversation now new_id cmd) w = (sync_conversation env now new_id cmd w).1
serve env (Request.remove_conversation owner id) w = (delete_conversation owner id w).1

unfoldable pub serve_all : Surroundings → List Request → World Tables → World Tables
unfolding serve
serve_all env [] w = w
serve_all env (r ∷ rs) w = serve_all env rs (serve env r w)

unfoldable pub conversations_of : String → World Tables → ℕ
conversations_of o w = count_by_owner o w.tables.conversations

count-refile :
    (o : String) (new : Conversation) (cs : List Conversation)
    → count_by_owner o (refile_rows new cs) ≡ count_by_owner o cs
unfolding count_by_owner refile_rows
count-refile o new [] = refl
count-refile o new (c ∷ cs) = ground (arith, count-refile o new cs)

count-delete :
    (o owner id : String) (cs : List Conversation)
    → count_by_owner o (delete_conversation_rows owner id cs) ≤ count_by_owner o cs
unfolding count_by_owner delete_conversation_rows
count-delete o owner id [] = omega arith
count-delete o owner id (c ∷ cs) = ground (arith, count-delete o owner id cs)

count-delete_filed :
    (o owner id : String) (cs : List Conversation)
    → count_by_owner o (delete_filed_rows owner id cs) ≤ count_by_owner o cs
unfolding count_by_owner delete_filed_rows
count-delete_filed o owner id [] = omega arith
count-delete_filed o owner id (c ∷ cs) = ground (arith, count-delete_filed o owner id cs)

find-has :
    (owner client id : String) (cs : List Conversation)
    → find_id_by_client owner client cs ≡ some id
    → has_conversation owner client cs ≡ true
unfolding find_id_by_client find_conversation id_of has_conversation
find-has owner client id [] h = ground arith
find-has owner client id (c ∷ cs) h = ground (arith, find-has owner client id cs)

upsert_row-known :
    (o : String) (new : Conversation) (t : Tables)
    → has_conversation new.owner_id new.client_id t.conversations ≡ true
    → count_by_owner o (upsert_conversation_row new t).1.conversations
      ≡ count_by_owner o t.conversations
unfolding upsert_conversation_row
upsert_row-known o new t h = ground (arith, count-refile o new t.conversations)

upsert_row-other :
    (o : String) (new : Conversation) (t : Tables)
    → (new.owner_id == o) ≡ false
    → count_by_owner o (upsert_conversation_row new t).1.conversations
      ≡ count_by_owner o t.conversations
unfolding upsert_conversation_row count_by_owner
upsert_row-other o new t h = ground (arith, count-refile o new t.conversations)

upsert_row-one :
    (o : String) (new : Conversation) (t : Tables)
    → count_by_owner o (upsert_conversation_row new t).1.conversations
      ≤ suc (count_by_owner o t.conversations)
unfolding upsert_conversation_row count_by_owner
upsert_row-one o new t = ground (arith, count-refile o new t.conversations)

upsert-count :
    (o : String) (new : Conversation) (w : World Tables) (n : ℕ)
    → count_by_owner o (upsert_conversation_row new w.tables).1.conversations ≤ n
    → conversations_of o w ≤ n
    → conversations_of o (upsert_conversation new w).1 ≤ n
unfolding upsert_conversation conversations_of
upsert-count o new w n h k = ground arith

store_conversation-count :
    (o : String) (env : Surroundings) (now : ℕ) (id : String) (cmd : UpsertConversationCommand)
    (w : World Tables) (n : ℕ)
    → count_by_owner o
        (upsert_conversation_row (new_conversation now id cmd) w.tables).1.conversations
      ≤ n
    → conversations_of o w ≤ n
    → conversations_of o (store_conversation env now id cmd w).1 ≤ n
unfolding store_conversation
store_conversation-count o env now id cmd w n h k =
    let new = new_conversation now id cmd in
    let whole = upsert-count o new w n h k in
    elim (Result-cases (store_content env new cmd.messages)) [
      | inr (e, s) ↦ subst (λ v. conversations_of o v ≤ n) (ground arith) k
      | inl (u, s) ↦ subst (λ v. conversations_of o v ≤ n) (ground arith) whole
    ]

delete_project-count :
    (o owner id : String) (w : World Tables)
    → conversations_of o (delete_project owner id w).1 ≤ conversations_of o w
unfolding delete_project delete_project_row conversations_of
delete_project-count o owner id w =
    ground (arith, count-delete_filed o owner id w.tables.conversations)

delete_conversation-count :
    (o owner id : String) (w : World Tables)
    → conversations_of o (delete_conversation owner id w).1 ≤ conversations_of o w
unfolding delete_conversation delete_conversation_row conversations_of
delete_conversation-count o owner id w =
    ground (arith, count-delete o owner id w.tables.conversations)

sync_project-count :
    (o : String) (cut : String → String) (now : ℕ) (new_id : String) (cmd : UpsertProjectCommand)
    (w : World Tables)
    → conversations_of o (sync_project cut now new_id cmd w).1 ≡ conversations_of o w
unfolding sync_project upsert_project upsert_project_row conversations_of
sync_project-count o cut now new_id cmd w = ground arith

check_project-count :
    (o owner project_id : String) (w : World Tables)
    → conversations_of o (check_project owner project_id w).1 ≡ conversations_of o w
unfolding check_project conversations_of
check_project-count o owner project_id w = ground arith

check_cap-same :
    (o : String) (max_sessions : String → Option ℕ) (owner : String) (w : World Tables)
    → conversations_of o (check_cap max_sessions owner none w).1 ≡ conversations_of o w
unfolding check_cap check_count conversations_of
check_cap-same o max_sessions owner w = elim (Option-cases (max_sessions owner)) [
  | inl n ↦ ground arith
  | inr (m, n) ↦ ground arith
]

check_cap-known :
    (max_sessions : String → Option ℕ) (owner id : String) (w : World Tables)
    → check_cap max_sessions owner (some id) w ≡ (ok tt, w)
unfolding check_cap
check_cap-known max_sessions owner id w = refl

-- A new conversation that passes leaves room for itself.
check_cap-room :
    (o : String) (max_sessions : String → Option ℕ) (m : ℕ) (w : World Tables) (u : Unit {0})
    → max_sessions o ≡ some m
    → 0 < m
    → (check_cap max_sessions o none w).0 ≡ ok u
    → suc (conversations_of o w) ≤ m
unfolding check_cap check_count conversations_of
check_cap-room o max_sessions m w u cap h k = ground arith

abbrev look : UpsertConversationCommand → Db (Option String)
look cmd = query db_error (λ t. ok (find_id_by_client cmd.owner_id cmd.client_id t.conversations))

look-same :
    (o : String) (cmd : UpsertConversationCommand) (w : World Tables)
    → conversations_of o (look cmd w).1 ≡ conversations_of o w
unfolding conversations_of
look-same o cmd w = ground arith

look-found :
    (cmd : UpsertConversationCommand) (w : World Tables) (found : Option String)
    → (look cmd w).0 ≡ ok found
    → find_id_by_client cmd.owner_id cmd.client_id (look cmd w).1.tables.conversations ≡ found
look-found cmd w found h = ground arith

module _ (o : String) (env : Surroundings) (m : ℕ) (cap : env.max_sessions o ≡ some m)
    (h : 0 < m) where
  known-count :
      (now : ℕ) (id : String) (cmd : UpsertConversationCommand) (w : World Tables)
      → has_conversation cmd.owner_id cmd.client_id w.tables.conversations ≡ true
      → conversations_of o w ≤ m
      → conversations_of o (store_conversation env now id cmd w).1 ≤ m
  unfolding conversations_of new_conversation
  known-count now id cmd w e k =
      let same = upsert_row-known o (new_conversation now id cmd) w.tables e in
      store_conversation-count o env now id cmd w m (subst (λ n. n ≤ m) (sym same) k) k

  other-count :
      (now : ℕ) (id : String) (cmd : UpsertConversationCommand) (w : World Tables)
      → (cmd.owner_id == o) ≡ false
      → conversations_of o w ≤ m
      → conversations_of o (store_conversation env now id cmd w).1 ≤ m
  unfolding conversations_of new_conversation
  other-count now id cmd w e k =
      let same = upsert_row-other o (new_conversation now id cmd) w.tables e in
      store_conversation-count o env now id cmd w m (subst (λ n. n ≤ m) (sym same) k) k

  room-count :
      (now : ℕ) (id : String) (cmd : UpsertConversationCommand) (w : World Tables)
      → suc (conversations_of o w) ≤ m
      → conversations_of o (store_conversation env now id cmd w).1 ≤ m
  unfolding conversations_of
  room-count now id cmd w k =
      let one = upsert_row-one o (new_conversation now id cmd) w.tables in
      store_conversation-count o env now id cmd w m (omega arith) (omega arith)

  new-count :
      (now : ℕ) (id : String) (cmd : UpsertConversationCommand) (w : World Tables) (u : Unit {0})
      → (check_cap env.max_sessions cmd.owner_id none w).0 ≡ ok u
      → conversations_of o w ≤ m
      → conversations_of o
          (store_conversation env now id cmd (check_cap env.max_sessions cmd.owner_id none w).1).1
        ≤ m
  new-count now id cmd w u c k =
      let same = check_cap-same o env.max_sessions cmd.owner_id w in
      let after = (check_cap env.max_sessions cmd.owner_id none w).1 in
      elim (text_dec cmd.owner_id o) [
        | no d ↦ other-count now id cmd after (ground arith) (omega arith)
        | yes e ↦
            let room =
              check_cap-room o env.max_sessions m w u cap h
                (subst (λ x. (check_cap env.max_sessions x none w).0 ≡ ok u) e c) in
            room-count now id cmd after (omega arith)
      ]

  admitted-count :
      (now : ℕ) (new_id : String) (cmd : UpsertConversationCommand) (found : Option String)
      (w : World Tables)
      → find_id_by_client cmd.owner_id cmd.client_id w.tables.conversations ≡ found
      → conversations_of o w ≤ m
      → conversations_of o
          ((check_cap env.max_sessions cmd.owner_id found
              >> store_conversation env now (chosen_id new_id found) cmd)
            w).1
        ≤ m
  admitted-count now new_id cmd (some id) w f k =
      subst (λ v. conversations_of o v ≤ m)
        (ground (arith, check_cap-known env.max_sessions cmd.owner_id id w))
        (known-count now (chosen_id new_id (some id)) cmd w
          (find-has cmd.owner_id cmd.client_id id w.tables.conversations f) k)
  admitted-count now new_id cmd none w f k =
      let c = check_cap env.max_sessions cmd.owner_id none w in
      elim (Result-cases c.0) [
        | inr (e, r) ↦
            subst (λ v. conversations_of o v ≤ m) (ground arith)
              (subst (λ n. n ≤ m) (sym (check_cap-same o env.max_sessions cmd.owner_id w)) k)
        | inl (u, r) ↦
            subst (λ v. conversations_of o v ≤ m) (ground arith)
              (new-count now (chosen_id new_id none) cmd w u r k)
      ]

  -- The calls keep the number, where the new row is under the cap or there is none.
  admit-count :
      (now : ℕ) (new_id : String) (cmd : UpsertConversationCommand) (w : World Tables)
      → conversations_of o w ≤ m
      → conversations_of o (admit_conversation env now new_id cmd w).1 ≤ m
  unfolding admit_conversation
  admit-count now new_id cmd w k =
      let seen = (look cmd w).1 in
      let k' = subst (λ n. n ≤ m) (sym (look-same o cmd w)) k in
      elim (Result-cases (look cmd w).0) [
        | inr (e, f) ↦ subst (λ v. conversations_of o v ≤ m) (ground arith) k'
        | inl (found, f) ↦
            subst (λ v. conversations_of o v ≤ m) (ground arith)
              (admitted-count now new_id cmd found seen (look-found cmd w found f) k')
      ]

  sync_conversation-count :
      (now : ℕ) (new_id : String) (cmd : UpsertConversationCommand) (w : World Tables)
      → conversations_of o w ≤ m
      → conversations_of o (sync_conversation env now new_id cmd w).1 ≤ m
  unfolding sync_conversation
  sync_conversation-count now new_id raw w k =
      let cmd = normalize_conversation env.cut raw in
      let checked = check_project cmd.owner_id cmd.project_id w in
      let same = check_project-count o cmd.owner_id cmd.project_id w in
      elim (Result-cases (validate_conversation cmd)) [
        | inr (e, v) ↦ subst (λ v. conversations_of o v ≤ m) (ground arith) k
        | inl (u, v) ↦ elim (Result-cases checked.0) [
          | inr (e, c) ↦
              subst (λ v. conversations_of o v ≤ m) (ground arith) (subst (λ n. n ≤ m) (sym same) k)
          | inl (u, c) ↦
              subst (λ v. conversations_of o v ≤ m) (ground arith)
                (admit-count now new_id cmd checked.1 (subst (λ n. n ≤ m) (sym same) k))
        ]
      ]

  serve-count :
      (r : Request) (w : World Tables)
      → conversations_of o w ≤ m
      → conversations_of o (serve env r w) ≤ m
  unfolding serve
  serve-count (Request.put_project now new_id cmd) w k =
      subst (λ n. n ≤ m) (sym (sync_project-count o env.cut now new_id cmd w)) k
  serve-count (Request.remove_project owner id) w k =
      let d = delete_project-count o owner id w in omega arith
  serve-count (Request.put_conversation now new_id cmd) w k =
      sync_conversation-count now new_id cmd w k
  serve-count (Request.remove_conversation owner id) w k =
      let d = delete_conversation-count o owner id w in omega arith

  -- Where an owner has a cap that is not 0 and no more conversations than it, this stays so,
  -- whatever calls are made for whomever and whichever statements fail.
  pub serve_all-max_sessions :
      (rs : List Request) (w : World Tables)
      → conversations_of o w ≤ m
      → conversations_of o (serve_all env rs w) ≤ m
  unfolding serve_all
  serve_all-max_sessions [] w k = k
  serve_all-max_sessions (r ∷ rs) w k =
      serve_all-max_sessions rs (serve env r w) (serve-count r w k)
