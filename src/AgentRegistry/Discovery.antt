-- ===== src/AgentRegistry/Discovery.antt =====
-- What `Discover` finds.
use oma_server.Common.{
  ℕ, ◌≡◌, refl, ap, ◌∙◌, Bool, true, false, ◌&&◌, ◌||◌, String, List, [], ◌∷◌, ok, World, arith,
}
use oma_server.AgentRegistry.Model.{
  Agent, Shown, Filter, matches, status_allowed, compute_status, validate_filter,
}
use oma_server.AgentRegistry.Tables.{Tables, Like, coarse, place, listed}
use oma_server.AgentRegistry.Service.{discover, discovered, shown_at}
use oma_server.AgentRegistry.Prefilter.{FindsParts, is_safe, coarse-matches}

unfoldable pub any {ℓ} : {A : Type ℓ} → (A → Bool) → List A → Bool
any test [] = false
any test (x ∷ xs) = test x || any test xs

any-place :
    (test : Agent → Bool) (a : Agent) (rows : List Agent)
    → any test (place a rows) ≡ (test a || any test rows)
unfolding any place
any-place test a [] = refl
any-place test a (b ∷ rows) = ground (arith, any-place test a rows)

pub any-listed :
    (test : Agent → Bool) (like : Like) (f : Filter) (rows : List Agent)
    → any test (listed like f rows) ≡ any (λ a. coarse like f a && test a) rows
unfolding any listed
any-listed test like f [] = refl
any-listed test like f (a ∷ rows) =
    ground (arith, any-listed test like f rows, any-place test a (listed like f rows))

-- The agents that a filter asks for at a time.
unfoldable pub asked : (String → String) → ℕ → ℕ → Filter → Agent → Bool
asked lower now ttl f a =
    matches lower f a && status_allowed (compute_status a.last_heartbeat_at now ttl) f.status

any-discovered :
    (test : Shown → Bool) (lower : String → String) (now ttl : ℕ) (f : Filter) (rows : List Agent)
    → any test (discovered lower now ttl f rows)
      ≡ any (λ a. asked lower now ttl f a && test (shown_at now ttl a)) rows
unfolding any discovered asked
any-discovered test lower now ttl f [] = refl
any-discovered test lower now ttl f (a ∷ rows) =
    ground (arith, any-discovered test lower now ttl f rows)

pub any_cong :
    (p q : Agent → Bool) (rows : List Agent) → ((a : Agent) → p a ≡ q a) → any p rows ≡ any q rows
unfolding any
any_cong p q [] h = refl
any_cong p q (a ∷ rows) h = ground (arith, h a, any_cong p q rows h)

coarse-asked :
    (lower : String → String) (like : Like) (now ttl : ℕ) (f : Filter) (a : Agent) (b : Bool)
    → FindsParts like
    → is_safe f.capability ≡ true
    → is_safe f.tag ≡ true
    → (coarse like f a && (asked lower now ttl f a && b)) ≡ (asked lower now ttl f a && b)
unfolding asked
coarse-asked lower like now ttl f a b finds c t =
    ground (arith, coarse-matches lower like f a finds c t)

-- Whatever is asked of the agents found, the answer is that of the agents in the table that match
-- the filter and are in a state that it allows: those are found, with their state, and no others.
-- The tags that the filter asks for are taken to be written by JSON as they are, or to have a
-- character that keeps the statement from looking for them.
pub discover-asked :
    (test : Shown → Bool) (lower : String → String) (like : Like) (now ttl : ℕ) (raw f : Filter)
    (w : World Tables) (out : List Shown)
    → FindsParts like
    → validate_filter lower raw ≡ ok f
    → is_safe f.capability ≡ true
    → is_safe f.tag ≡ true
    → (discover lower like now ttl raw w).0 ≡ ok out
    → any test out ≡ any (λ a. asked lower now ttl f a && test (shown_at now ttl a)) w.tables.agents
unfolding discover
discover-asked test lower like now ttl raw f w out finds valid c t h =
    let found : out ≡ discovered lower now ttl f (listed like f w.tables.agents) = ground arith in
    ap (any test) found
    ∙ any-discovered test lower now ttl f (listed like f w.tables.agents)
    ∙ any-listed _ like f w.tables.agents
    ∙ any_cong _ _ w.tables.agents
        (λ a. coarse-asked lower like now ttl f a (test (shown_at now ttl a)) finds c t)
