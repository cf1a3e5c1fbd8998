-- ===== src/AccountRisk/Decoding.antt =====
-- `decode_account_risk` of src/account_risk.rs on every event.
use Prim.Native.String.{String}
use crypto_nav_manager.Base.{
  ℕ, ◌+◌, ◌-◌, ◌≤◌, ltb, leb, ◌==◌, ◌≡◌, refl, ◌⊎◌, inl, inr, true, false, ◌&&◌, not, Option, none,
  some, List, [], ◌∷◌, All, length, take, drop, Outcome, done, failed, ◌>>=◌, if◌then◌else◌,
  Bool-cases, Option-cases, arith,
}
use crypto_nav_manager.Base.Int.{pos, leb_ℤ}
use crypto_nav_manager.Float.{Float}
use crypto_nav_manager.AccountRisk.{decode, AccountRiskReading, AccountScope, Limits}
use crypto_nav_manager.AccountRisk.Wire.{
  WireError, event_type, inner_type, header_bytes, legacy_body_bytes, body_bytes, slice, read_array,
  read_u32, read_i64, read_f64, read_reading, validate, decode_body, decode_account_risk,
  check_amounts, is_amount, is_ratio, amounts,
}

-- With a value of which `P` holds, or with an error value.
abbrev pub EndsIn : {A : Type 0} → (A → Type 0) → Outcome WireError A → Type 0
EndsIn {A = A} P r = ((a : A) × (r ≡ done a) × P a) ⊎ ((x : WireError) × (r ≡ failed x))

abbrev Ends : {A : Type 0} → Outcome WireError A → Type 0
Ends {A = A} r = EndsIn {A = A} (λ _. Unit {0}) r

EndsIn->>= :
    {A B : Type 0} (P : A → Type 0) (Q : B → Type 0) (r : Outcome WireError A)
    (g : A → Outcome WireError B)
    → EndsIn P r
    → ((a : A) → P a → EndsIn Q (g a))
    → EndsIn Q (r >>= g)
EndsIn->>= P Q r g (inl (a, e, p)) h = rw e (h a p)
EndsIn->>= P Q r g (inr (x, e)) h = rw e (inr (x, refl))

-- After any call that ends, whatever it gives.
EndsIn-bind :
    {A B : Type 0} (Q : B → Type 0) (r : Outcome WireError A) (g : A → Outcome WireError B)
    → Ends r
    → ((a : A) → EndsIn Q (g a))
    → EndsIn Q (r >>= g)
EndsIn-bind Q r g e h = EndsIn->>= (λ _. Unit) Q r g e (λ a _. h a)

read_array-Ends : (n : ℕ) (bytes : List ℕ) (offset : ℕ) → Ends (read_array n bytes offset)
unfolding read_array
read_array-Ends n bytes offset = elim (Bool-cases (leb (offset + n) (length bytes))) [
  | inl e ↦ rw e (inl (_, refl, tt))
  | inr e ↦ rw e (inr (_, refl))
]

read_u32-Ends : (bytes : List ℕ) (offset : ℕ) → Ends (read_u32 bytes offset)
unfolding read_u32
read_u32-Ends bytes offset =
    EndsIn-bind (λ _. Unit) (read_array 4 bytes offset) _ (read_array-Ends 4 bytes offset)
      (λ a. inl (_, refl, tt))

read_i64-Ends : (bytes : List ℕ) (offset : ℕ) → Ends (read_i64 bytes offset)
unfolding read_i64
read_i64-Ends bytes offset =
    EndsIn-bind (λ _. Unit) (read_array 8 bytes offset) _ (read_array-Ends 8 bytes offset)
      (λ a. inl (_, refl, tt))

slice-eq-done :
    (bytes : List ℕ) (from to : ℕ)
    → from ≤ to
    → ltb (length bytes) to ≡ false
    → slice bytes from to ≡ done (take (to - from) (drop from bytes))
unfolding slice
slice-eq-done bytes from to h l = ground arith

module _ {F : Type 0} ⦃f : Float F⦄ (of_bits : ℕ → F) (limits : Limits F) where
  read_f64-Ends : (bytes : List ℕ) (offset : ℕ) → Ends (read_f64 of_bits limits bytes offset)
  unfolding read_f64
  read_f64-Ends bytes offset =
      EndsIn-bind (λ _. Unit) (read_array 8 bytes offset) _ (read_array-Ends 8 bytes offset)
        (λ a. inl (_, refl, tt))

  read_reading-Ends :
      (body : List ℕ) (scope : AccountScope) → Ends (read_reading of_bits limits body scope)
  unfolding read_reading
  read_reading-Ends body scope =
      EndsIn-bind (λ _. Unit) (read_i64 body 4) _ (read_i64-Ends body 4)
        (λ t.
          EndsIn-bind (λ _. Unit) (read_f64 of_bits limits body 12) _ (read_f64-Ends body 12)
            (λ a.
              EndsIn-bind (λ _. Unit) (read_f64 of_bits limits body 20) _ (read_f64-Ends body 20)
                (λ b.
                  EndsIn-bind (λ _. Unit) (read_f64 of_bits limits body 28) _
                    (read_f64-Ends body 28)
                    (λ c.
                      EndsIn-bind (λ _. Unit) (read_f64 of_bits limits body 36) _
                        (read_f64-Ends body 36)
                        (λ d.
                          EndsIn-bind (λ _. Unit) (read_f64 of_bits limits body 44) _
                            (read_f64-Ends body 44)
                            (λ e.
                              EndsIn-bind (λ _. Unit) (read_f64 of_bits limits body 52) _
                                (read_f64-Ends body 52)
                                (λ g.
                                  EndsIn-bind (λ _. Unit) (read_f64 of_bits limits body 60) _
                                    (read_f64-Ends body 60) (λ h. inl (_, refl, tt)))))))))

  -- A reading that may go into the cache: its time is positive, its amounts are finite or missing, and
  -- so is its ratio, or infinite without a margin to maintain.
  pub record IsReading (r : AccountRiskReading F) : Type 0 where
    pub timely : leb_ℤ r.source_ts_ms (pos 0) ≡ false
    pub amounts_known :
        All (λ (p : String × F). is_amount of_bits limits p.1 ≡ true) (amounts of_bits limits r)
    pub ratio_known : is_ratio of_bits limits r ≡ true

  abbrev pub IsDecoded : Option (AccountRiskReading F) → Type 0
  IsDecoded none = Unit
  IsDecoded (some r) = IsReading r

  check_amounts-EndsIn :
      (ps : List (String × F))
      → EndsIn
          (λ _. All (λ (p : String × F). is_amount of_bits limits p.1 ≡ true) ps)
          (check_amounts of_bits limits ps)
  unfolding check_amounts
  check_amounts-EndsIn [] = inl (tt, refl, tt)
  check_amounts-EndsIn ((name, value) ∷ ps) = elim (Bool-cases (is_amount of_bits limits value)) [
    | inl e ↦ elim (check_amounts-EndsIn ps) [
      | inl (u, g, k) ↦ inl (u, rw e g, (e, k))
      | inr (x, g) ↦ inr (x, rw e g)
    ]
    | inr e ↦ rw e (inr (_, refl))
  ]

  validate-EndsIn : (r : AccountRiskReading F) → EndsIn IsDecoded (validate of_bits limits r)
  unfolding validate
  validate-EndsIn r = elim (Bool-cases (leb_ℤ r.source_ts_ms (pos 0))) [
    | inl e ↦ rw e (inr (_, refl))
    | inr e ↦ rw e (
        EndsIn->>=
          (λ _.
            All (λ (p : String × F). is_amount of_bits limits p.1 ≡ true)
              (amounts of_bits limits r))
          IsDecoded (check_amounts of_bits limits (amounts of_bits limits r)) _
          (check_amounts-EndsIn (amounts of_bits limits r))
          (λ _ known. elim (Bool-cases (is_ratio of_bits limits r)) [
            | inl q ↦
                rw q (inl (_, refl, record { timely = e; amounts_known = known; ratio_known = q }))
            | inr q ↦ rw q (inr (_, refl))
          ]))
  ]

  body_checked :
      (bytes : List ℕ) (scope : AccountScope) (n : ℕ)
      → EndsIn IsDecoded (
          let body = take (header_bytes + n - header_bytes) (drop header_bytes bytes) in
          read_u32 body 0 >>= λ inner.
          if not (inner == event_type)
          then failed inner_type
          else read_reading of_bits limits body scope >>= validate of_bits limits)
  body_checked bytes scope n =
      let body = take (header_bytes + n - header_bytes) (drop header_bytes bytes) in
      EndsIn-bind IsDecoded (read_u32 body 0) _ (read_u32-Ends body 0) (λ inner.
        elim (Bool-cases (inner == event_type)) [
          | inr b ↦ rw b (inr (_, refl))
          | inl b ↦ rw b (
              EndsIn-bind IsDecoded (read_reading of_bits limits body scope)
                (validate of_bits limits) (read_reading-Ends body scope) validate-EndsIn)
        ])

  decode_body-EndsIn :
      (bytes : List ℕ) (scope : AccountScope) (n : ℕ)
      → EndsIn IsDecoded (decode_body of_bits limits bytes scope n)
  unfolding decode_body
  decode_body-EndsIn bytes scope n =
      elim (Bool-cases (not (n == legacy_body_bytes) && not (n == body_bytes))) [
        | inl e ↦ rw e (inr (_, refl))
        | inr e ↦ elim (Bool-cases (ltb (length bytes) (header_bytes + n))) [
          | inl l ↦ rw (e, l) (inr (_, refl))
          | inr l ↦
              rw (e, l, slice-eq-done bytes header_bytes (header_bytes + n) (omega arith) l)
                (body_checked bytes scope n)
        ]
      ]

  -- Whatever the bytes, decoding ends without a panic: with an error, with nothing, or with a reading
  -- whose time is positive, whose amounts are finite or NaN, and whose ratio is finite, or equal to the
  -- infinity where the margin to maintain is at most the epsilon.
  pub decode_account_risk-EndsIn :
      (bytes : List ℕ) → EndsIn IsDecoded (decode_account_risk of_bits limits bytes)
  unfolding decode_account_risk
  decode_account_risk-EndsIn bytes = elim (Bool-cases (ltb (length bytes) header_bytes)) [
    | inl e ↦ rw e (inr (_, refl))
    | inr e ↦ rw e (
        EndsIn-bind IsDecoded (read_u32 bytes 0) _ (read_u32-Ends bytes 0) (λ kind.
          elim (Bool-cases (kind == event_type)) [
            | inr b ↦ rw b (inl (_, refl, tt))
            | inl b ↦ rw b (
                EndsIn-bind IsDecoded (read_u32 bytes 4) _ (read_u32-Ends bytes 4) (λ value.
                  elim (Option-cases (decode value)) [
                    | inl n ↦ rw n (inr (_, refl))
                    | inr (scope, n) ↦ rw n (
                        EndsIn-bind IsDecoded (read_u32 bytes 8)
                          (decode_body of_bits limits bytes scope) (read_u32-Ends bytes 8)
                          (λ len. decode_body-EndsIn bytes scope len))
                  ]))
          ]))
  ]
