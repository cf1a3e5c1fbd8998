-- ===== src/Dispatch/Headers.antt =====
-- src/rest_dispatcher.rs: the numbers in response headers. A header that is text has printable ASCII
-- characters and tabs, so `trim` strips spaces and tabs.
use crypto_nav_manager.Base.{
  ℕ, ◌+◌, ◌-◌, ◌*◌, leb, ◌==◌, Option, none, some, List, [], ◌∷◌, if◌then◌else◌,
}
use crypto_nav_manager.Base.Text.{is_ascii_digit, trim_start, trim_end}
use crypto_nav_manager.Dispatch.{Response, from_secs}

abbrev pub u32_max : ℕ
u32_max = 4294967295

abbrev pub u64_max : ℕ
u64_max = 18446744073709551615

-- The digits of `parse::<u32>` and `parse::<u64>`, after a value `acc`: an overflow is an error.
unfoldable pub parse_digits : ℕ → ℕ → List ℕ → Option ℕ
unfolding is_ascii_digit
parse_digits limit acc [] = some acc
parse_digits limit acc (c ∷ cs) =
    let value = acc * 10 + (c - b'0') in
    let rest = parse_digits limit value cs in
    if is_ascii_digit c then (if leb value limit then rest else none) else none

-- `parse` takes one sign `+`, and wants a digit.
unfoldable pub parse_unsigned : ℕ → List ℕ → Option ℕ
unfolding parse_digits
parse_unsigned limit [] = none
parse_unsigned limit (c ∷ []) = parse_digits limit 0 (c ∷ [])
parse_unsigned limit (c ∷ d ∷ cs) =
    if c == b'+' then parse_digits limit 0 (d ∷ cs) else parse_digits limit 0 (c ∷ d ∷ cs)

unfoldable pub retry_after : Response → Option ℕ
unfolding parse_unsigned trim_start trim_end
retry_after r = elim (r.header "retry-after") [
  | none ↦ none
  | some text ↦ elim (parse_unsigned u64_max (trim_end (trim_start text))) [
    | none ↦ none
    | some seconds ↦ some (from_secs seconds)
  ]
]
