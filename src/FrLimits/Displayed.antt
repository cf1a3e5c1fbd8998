-- ===== src/FrLimits/Displayed.antt =====
-- src/fr_position_limits.rs: which symbols have a row.
use crypto_nav_manager.Base.{
  ℕ, ◌≡◌, refl, ap, ◌∙◌, Bool, true, false, ◌&&◌, ◌||◌, inl, inr, Bool-cases, Option, none, some,
  List, [], ◌∷◌, arith,
}
use crypto_nav_manager.Base.Text.{bytes_eq, bytes_eq_iff, bytes_before}
use crypto_nav_manager.Float.{Float}
use crypto_nav_manager.FrLimits.{
  Constants, SnapshotPosition, GuardParams, BinanceLimit, GateLimit, or_else,
}
use crypto_nav_manager.FrLimits.Answers.{BinanceData, GateData}
use crypto_nav_manager.FrLimits.Rows.{FrLimitRow}
use crypto_nav_manager.FrLimits.Tables.{
  insert_symbol, extend_keys, is_relevant, relevant_snapshot_symbols, rows_of, binance_row,
  gate_row, build_binance_rows, build_gate_rows, shows_position, is_displayed,
}

abbrev pub contains : List (List ℕ) → List ℕ → Bool
contains [] x = false
contains (s ∷ ss) x = bytes_eq s x || contains ss x

-- Whether a value of the symbol passes the test.
abbrev pub any_value : {L : Type 0} → (L → Bool) → List (List ℕ × L) → List ℕ → Bool
any_value test [] x = false
any_value test ((s, l) ∷ limits) x = test l && bytes_eq s x || any_value test limits x

-- Each symbol is strictly before the next, so that none stands twice.
abbrev pub IsOrdered : List (List ℕ) → Type 0
IsOrdered [] = Unit
IsOrdered (s ∷ []) = Unit
IsOrdered (s ∷ t ∷ ts) = (bytes_before s t ≡ true) × IsOrdered (t ∷ ts)

bytes_before_connex :
    (s t : List ℕ) → bytes_eq s t ≡ false → bytes_before s t ≡ false → bytes_before t s ≡ true
bytes_before_connex [] [] e b = cc
bytes_before_connex [] (y ∷ ys) e b = cc
bytes_before_connex (x ∷ xs) [] e b = refl
bytes_before_connex (x ∷ xs) (y ∷ ys) e b = let rest = bytes_before_connex xs ys in ground arith

contains-insert_symbol :
    (s : List ℕ) (ts : List (List ℕ)) (x : List ℕ)
    → contains (insert_symbol s ts) x ≡ (bytes_eq s x || contains ts x)
unfolding insert_symbol
contains-insert_symbol s [] x = refl
contains-insert_symbol s (t ∷ ts) x = elim (Bool-cases (bytes_eq s t)) [
  | inl same ↦ let e : s ≡ t = (bytes_eq_iff s t).0 same in rw (same, e) (ground arith)
  | inr other ↦ rw other (elim (Bool-cases (bytes_before s t)) [
    | inl front ↦ rw front
    | inr behind ↦ rw (behind, contains-insert_symbol s ts x) (ground arith)
  ])
]

insert_symbol-IsOrdered :
    (s : List ℕ) (ts : List (List ℕ)) → IsOrdered ts → IsOrdered (insert_symbol s ts)
unfolding insert_symbol
insert_symbol-IsOrdered s [] o = tt
insert_symbol-IsOrdered s (t ∷ ts) o = elim (Bool-cases (bytes_eq s t)) [
  | inl same ↦ rw same o
  | inr other ↦ rw other (elim (Bool-cases (bytes_before s t)) [
    | inl front ↦ rw front (front, o)
    | inr behind ↦ rw behind (behind_it t ts o (bytes_before_connex s t other behind))
  ])
]
  where
    behind_it :
        (t : List ℕ) (ts : List (List ℕ))
        → IsOrdered (t ∷ ts)
        → bytes_before t s ≡ true
        → IsOrdered (t ∷ insert_symbol s ts)
    behind_it t [] o b = (b, tt)
    behind_it t (u ∷ us) (c, o) b = elim (Bool-cases (bytes_eq s u)) [
      | inl same ↦ rw same (c, o)
      | inr other ↦ rw other (elim (Bool-cases (bytes_before s u)) [
        | inl front ↦ rw front (b, (front, o))
        | inr behind ↦ rw behind (c, behind_it u us o (bytes_before_connex s u other behind))
      ])
    ]

module _ {L : Type 0} (test : L → Bool) where
  contains-extend_keys :
      (limits : List (List ℕ × L)) (symbols : List (List ℕ)) (x : List ℕ)
      → contains (extend_keys test limits symbols) x
        ≡ (contains symbols x || any_value test limits x)
  unfolding extend_keys
  contains-extend_keys [] symbols x = ground arith
  contains-extend_keys ((s, l) ∷ limits) symbols x = elim (Bool-cases (test l)) [
    | inl passed ↦
        let rest = contains-extend_keys limits (insert_symbol s symbols) x in
        let front = contains-insert_symbol s symbols x in rw (passed, rest, front) (ground arith)
    | inr failed_it ↦ rw (failed_it, contains-extend_keys limits symbols x) (ground arith)
  ]

  extend_keys-IsOrdered :
      (limits : List (List ℕ × L)) (symbols : List (List ℕ))
      → IsOrdered symbols
      → IsOrdered (extend_keys test limits symbols)
  unfolding extend_keys
  extend_keys-IsOrdered [] symbols o = o
  extend_keys-IsOrdered ((s, l) ∷ limits) symbols o = elim (Bool-cases (test l)) [
    | inl passed ↦ rw passed (
        extend_keys-IsOrdered limits (insert_symbol s symbols)
          (insert_symbol-IsOrdered s symbols o))
    | inr failed_it ↦ rw failed_it (extend_keys-IsOrdered limits symbols o)
  ]

any_value-same :
    {L : Type 0} (test test' : L → Bool) (limits : List (List ℕ × L)) (x : List ℕ)
    → ((l : L) → test l ≡ test' l)
    → any_value test limits x ≡ any_value test' limits x
any_value-same test test' [] x e = refl
any_value-same test test' ((s, l) ∷ limits) x e =
    rw (e l, any_value-same test test' limits x e) refl

module _ {F : Type 0} ⦃f : Float F⦄ (constants : Constants F) where
  open f use {nought, abs, max, le}

  -- A position of at least the smallest size that is displayed, long or short.
  abbrev pub is_large : Option F → Bool
  is_large none = false
  is_large (some value) = le constants.position_display_min_usd (abs value)

  -- The larger of the open and the futures size in the snapshot is at least that; one that is not there is nought.
  abbrev pub is_held : SnapshotPosition F → Bool
  is_held p =
      le constants.position_display_min_usd
        (max (abs (or_else p.open_usdt nought)) (abs (or_else p.futures_usdt nought)))

  -- One row for each wanted symbol, in order, and no other.
  abbrev pub IsTable : (List ℕ → FrLimitRow F) → (List ℕ → Bool) → List (FrLimitRow F) → Type 0
  IsTable row wanted rows =
      (keys : List (List ℕ)) × (rows ≡ rows_of constants row keys)
      × IsOrdered keys
      × ((symbol : List ℕ) → contains keys symbol ≡ wanted symbol)

  extend_keys-IsTable :
      {L : Type 0} (row : List ℕ → FrLimitRow F) (shown large : L → Bool)
      (limits : List (List ℕ × L)) (snapshot : List (List ℕ × SnapshotPosition F))
      → ((l : L) → shown l ≡ large l)
      → IsTable row
          (λ symbol. any_value is_held snapshot symbol || any_value large limits symbol)
          (rows_of constants row
            (extend_keys shown limits (relevant_snapshot_symbols constants snapshot)))
  unfolding relevant_snapshot_symbols
  extend_keys-IsTable row shown large limits snapshot same = (
    extend_keys shown limits (relevant_snapshot_symbols constants snapshot),
    refl,
    extend_keys-IsOrdered shown limits (relevant_snapshot_symbols constants snapshot)
        (extend_keys-IsOrdered (is_relevant constants) snapshot [] tt),
    (λ symbol.
        contains-extend_keys shown limits (relevant_snapshot_symbols constants snapshot) symbol
        ∙ ap (λ b. b || any_value shown limits symbol)
            (contains-extend_keys (is_relevant constants) snapshot [] symbol
              ∙ any_value-same (is_relevant constants) is_held snapshot symbol (λ p. refl))
        ∙ ap (λ b. any_value is_held snapshot symbol || b)
            (any_value-same shown large limits symbol same)),
  )

  shows_position-large : (o : Option F) → shows_position constants o ≡ is_large o
  shows_position-large none = refl
  shows_position-large (some value) = refl

  -- On each exchange, the table has one row for each symbol whose larger size in the snapshot, or whose position
  -- at the exchange, is at least the smallest that is displayed, in the order of the symbols, and no other row.
  -- Each is the exchange's row for its symbol.
  pub build_rows-IsTable :
      (binance : BinanceData F) (gate : GateData F) (snapshot : List (List ℕ × SnapshotPosition F))
      (params : GuardParams F)
      → IsTable
          (binance_row constants binance snapshot params)
          (λ symbol.
            any_value is_held snapshot symbol
            || any_value
                (λ (l : BinanceLimit F). is_large l.current_notional)
                binance.limits
                symbol)
          (build_binance_rows constants binance snapshot params).0
        × IsTable
            (gate_row constants gate snapshot params)
            (λ symbol.
              any_value is_held snapshot symbol
              || any_value
                  (λ (l : GateLimit F). is_large (some l.current_notional))
                  gate.limits
                  symbol)
            (build_gate_rows constants gate snapshot params).0
  unfolding build_binance_rows build_gate_rows
  build_rows-IsTable binance gate snapshot params = (
    extend_keys-IsTable (binance_row constants binance snapshot params)
        (λ (l : BinanceLimit F). shows_position constants l.current_notional)
        (λ (l : BinanceLimit F). is_large l.current_notional) binance.limits snapshot
        (λ (l : BinanceLimit F). shows_position-large l.current_notional),
    extend_keys-IsTable (gate_row constants gate snapshot params)
        (λ (l : GateLimit F). is_displayed constants l.current_notional)
        (λ (l : GateLimit F). is_large (some l.current_notional)) gate.limits snapshot (λ l. refl),
  )
