-- ===== src/Matching/Soundness.antt =====
-- The invariant of the matching engine of src/intra_order_match.rs: a queue lists open orders of its
-- own symbol and side, each once.
use Prim.Native.String.{String}
use mathlib.Core.Bool.{false≢true}
use crypto_nav_manager.Base.{
  ◌≡◌, refl, sym, ap, subst, ◌∙◌, inl, inr, false, some, List, [], ◌∷◌, ◌++◌, arith, All,
  All-append, done, Bool-cases, if◌then◌else◌,
}
use crypto_nav_manager.Base.Int.{ℤ, eqb_ℤ, eqb_ℤ_iff}
use crypto_nav_manager.Base.Maps.{lookup, lookup-insert}
use crypto_nav_manager.Float.{Float}
use crypto_nav_manager.Matching.{
  Side, MarginOrder, MatchEngine, int_key, queue_key, queue_key_eq_iff,
}
use crypto_nav_manager.Matching.State.{index, put, queue, queue_of, tail, push_back, pop_front}
use crypto_nav_manager.Matching.Levels.{IsTolerance, Exceeds}

-- No entry of the list is this key.
abbrev pub Lacks : ℤ → List ℤ → Type 0
Lacks k = All λ j. eqb_ℤ j k ≡ false

abbrev pub Distinct : List ℤ → Type 0
Distinct [] = Unit
Distinct (k ∷ ks) = Lacks k ks × Distinct ks

Distinct-push : (k : ℤ) (ks : List ℤ) → Lacks k ks → Distinct ks → Distinct (ks ++ k ∷ [])
Distinct-push k [] l d = (tt, tt)
Distinct-push k (j ∷ ks) l (m, d) = (
  All-append _ ks _ m (ground (arith, eqb_ℤ_iff k j, eqb_ℤ_iff j k), tt),
  Distinct-push k ks l.1 d,
)

module _ {F : Type 0} ⦃f : Float F⦄ where
  -- The order under `j` is open and belongs into the queue at `key`.
  abbrev pub Live : MatchEngine F → String × Side → ℤ → Type 0
  Live e key j =
      (o : MarginOrder F) × (lookup j e.orders ≡ some o)
      × ((o.symbol, o.side) ≡ key)
      × Exceeds e.epsilon o.remaining_amount

  abbrev pub IsQueue : MatchEngine F → String × Side → List ℤ → Type 0
  IsQueue e key ks = All (Live e key) ks × Distinct ks

  pub record IsSound (e : MatchEngine F) : Type 0 where
    pub tolerance : IsTolerance e.epsilon
    pub queues : (key : String × Side) → IsQueue e key (queue e key)

  pub index-eq-done :
      (e : MatchEngine F) (k : ℤ) {o : MarginOrder F}
      → lookup k e.orders ≡ some o
      → index e k ≡ done o
  unfolding index
  index-eq-done e k h = rw (h, index)

  pub lookup-put :
      (e : MatchEngine F) (i j : ℤ) (o : MarginOrder F)
      → lookup j (put e i o).orders ≡ (if eqb_ℤ i j then some o else lookup j e.orders)
  lookup-put e i j o = lookup-insert i j o e.orders

  pub lookup-put_self :
      (e : MatchEngine F) (k : ℤ) (o : MarginOrder F) → lookup k (put e k o).orders ≡ some o
  lookup-put_self e k o = lookup-put e k k o ∙ rw ((eqb_ℤ_iff k k).1 refl)

  pub lookup-put_ne :
      (e : MatchEngine F) (i j : ℤ) (o : MarginOrder F)
      → eqb_ℤ i j ≡ false
      → lookup j (put e i o).orders ≡ lookup j e.orders
  lookup-put_ne e i j o h = lookup-put e i j o ∙ rw h

  -- A queue that does not list `k` does not see a change of the order under `k`.
  pub Live-put :
      (e : MatchEngine F) (key : String × Side) (k : ℤ) (o : MarginOrder F) (ks : List ℤ)
      → Lacks k ks
      → All (Live e key) ks
      → All (Live (put e k o) key) ks
  Live-put e key k o [] l a = tt
  Live-put e key k o (j ∷ ks) (n, l) ((x, h, s, p), a) = (
    (x, lookup-put_ne e k j o (ground (arith, eqb_ℤ_iff k j, eqb_ℤ_iff j k)) ∙ h, s, p),
    Live-put e key k o ks l a,
  )

  pub queue-pop_front :
      (e : MatchEngine F) (key key' : String × Side)
      → queue (pop_front e key) key'
        ≡ (if queue_key.beq key key' then tail (queue e key) else queue e key')
  queue-pop_front e key key' =
      ap queue_of (lookup-insert key key' (tail (queue e key)) e.queues)
      ∙ elim (Bool-cases (queue_key.beq key key')) [ inl h ↦ rw h | inr h ↦ rw h ]

  pub queue-push_back :
      (e : MatchEngine F) (key key' : String × Side) (k : ℤ)
      → queue (push_back e key k) key'
        ≡ (if queue_key.beq key key' then queue e key ++ k ∷ [] else queue e key')
  queue-push_back e key key' k =
      ap queue_of (lookup-insert key key' (queue e key ++ k ∷ []) e.queues)
      ∙ elim (Bool-cases (queue_key.beq key key')) [ inl h ↦ rw h | inr h ↦ rw h ]

  -- Popping keeps every queue a queue, and so does pushing a live order that was in none.
  IsQueue-tail :
      (e : MatchEngine F) (key : String × Side) (ks : List ℤ)
      → IsQueue e key ks
      → IsQueue e key (tail ks)
  IsQueue-tail e key [] q = q
  IsQueue-tail e key (k ∷ ks) ((_, a), (_, d)) = (a, d)

  pub pop_front-IsSound :
      (e : MatchEngine F) (key : String × Side) → IsSound e → IsSound (pop_front e key)
  pop_front-IsSound e key s = record {
    tolerance = s.tolerance;
    queues = λ key'. rw (queue-pop_front e key key') (elim (Bool-cases (queue_key.beq key key')) [
      | inl h ↦ rw (h, ← (queue_key_eq_iff key key').0 h) (IsQueue-tail e key _ (s.queues key))
      | inr h ↦ rw h (s.queues key')
    ]);
  }

  pub push_back-IsSound :
      (e : MatchEngine F) (key : String × Side) (k : ℤ)
      → IsSound e
      → Live e key k
      → Lacks k (queue e key)
      → IsSound (push_back e key k)
  push_back-IsSound e key k s live l = record {
    tolerance = s.tolerance;
    queues = λ key'. rw (queue-push_back e key key' k) (elim (Bool-cases (queue_key.beq key key')) [
      | inl h ↦
          rw (h, ← (queue_key_eq_iff key key').0 h)
            (
              All-append _ (queue e key) _ (s.queues key).0 (live, tt),
              Distinct-push k (queue e key) l (s.queues key).1,
            )
      | inr h ↦ rw h (s.queues key')
    ]);
  }

  -- A live key is in no queue but its own.
  pub Lacks-of-Live :
      (e : MatchEngine F) (key key' : String × Side) (j : ℤ) (ks : List ℤ)
      → Live e key j
      → queue_key.beq key key' ≡ false
      → All (Live e key') ks
      → Lacks j ks
  Lacks-of-Live e key key' j [] live n a = tt
  Lacks-of-Live e key key' j (i ∷ ks) (o, h, s, p) n ((x, g, t, q), a) = (
    elim (Bool-cases (eqb_ℤ i j)) [
      | inr other ↦ other
      | inl same ↦
          let found = sym g ∙ ap (λ z. lookup z e.orders) ((eqb_ℤ_iff i j).0 same) ∙ h in
          absurd
            (false≢true (sym n ∙ (queue_key_eq_iff key key').1 (sym s ∙ ground (arith, found) ∙ t)))
    ],
    Lacks-of-Live e key key' j ks (o, h, s, p) n a,
  )

  -- Changes of one order that keep the engine sound: of an order in no queue,
  pub put_unqueued-IsSound :
      (e : MatchEngine F) (k : ℤ) (o : MarginOrder F)
      → IsSound e
      → ((key : String × Side) → Lacks k (queue e key))
      → IsSound (put e k o)
  put_unqueued-IsSound e k o s l = record {
    tolerance = s.tolerance;
    queues = λ key. (Live-put e key k o (queue e key) (l key) (s.queues key).0, (s.queues key).1);
  }

  Live-put_self :
      (e : MatchEngine F) (key : String × Side) (j : ℤ) (o : MarginOrder F)
      → (o.symbol, o.side) ≡ key
      → Exceeds e.epsilon o.remaining_amount
      → Live (put e j o) key j
  Live-put_self e key j o s p = (o, lookup-put_self e j o, s, p)

  -- of the front of a queue that stays open,
  pub put_front-IsSound :
      (e : MatchEngine F) (key : String × Side) (j : ℤ) (js : List ℤ) (o : MarginOrder F)
      → IsSound e
      → queue e key ≡ j ∷ js
      → (o.symbol, o.side) ≡ key
      → Exceeds e.epsilon o.remaining_amount
      → IsSound (put e j o)
  put_front-IsSound e key j js o s h w p =
      let ((live, a), (l, d)) = subst (IsQueue e key) h (s.queues key) in
      record {
        tolerance = s.tolerance;
        queues = λ key'. elim (Bool-cases (queue_key.beq key key')) [
          | inl same ↦
              subst (λ z. IsQueue (put e j o) z (queue e z)) ((queue_key_eq_iff key key').0 same)
                (subst (IsQueue (put e j o) key) (sym h)
                  ((Live-put_self e key j o w p, Live-put e key j o js l a), (l, d)))
          | inr other ↦ (
            Live-put e key' j o (queue e key')
                (Lacks-of-Live e key key' j (queue e key') live other (s.queues key').0)
                (s.queues key').0,
            (s.queues key').1,
          )
        ];
      }

  -- and of the front of a queue that is then popped.
  pub put_popped-IsSound :
      (e : MatchEngine F) (key : String × Side) (j : ℤ) (js : List ℤ) (o : MarginOrder F)
      → IsSound e
      → queue e key ≡ j ∷ js
      → IsSound (pop_front (put e j o) key)
  put_popped-IsSound e key j js o s h =
      let ((live, a), (l, d)) = subst (IsQueue e key) h (s.queues key) in
      record {
        tolerance = s.tolerance;
        queues = λ key'.
            rw (queue-pop_front (put e j o) key key') (elim (Bool-cases (queue_key.beq key key')) [
              | inl same ↦
                  rw (same, h, ← (queue_key_eq_iff key key').0 same) (Live-put e key j o js l a, d)
              | inr other ↦ rw other (
                Live-put e key' j o (queue e key')
                    (Lacks-of-Live e key key' j (queue e key') live other (s.queues key').0)
                    (s.queues key').0,
                (s.queues key').1,
              )
            ]);
      }
