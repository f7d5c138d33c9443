-- ===== src/Routes/Update/Index.antt =====
-- `parseIndex` of service/src/routes/credentials-status.ts reads back what the service writes.
use text.Mathlib.TextLemmas.{append-nil}
use vcalm_status_service.Common.{
  ℕ, suc, ◌≤◌, String, ◌≡◌, ◌≢◌, sym, ap, ◌∙◌, true, arith, string_eq, beq_ne, le→leb, eq_iff,
}
use vcalm_status_service.Common.Text.{◌⧺◌, decimal}
use vcalm_status_service.Common.Decimal.{
  all_digits, value_from, decimal_from-Reads, decimal-nonempty,
}
use vcalm_status_service.Errors.{ok}
use vcalm_status_service.Routes.Update.{parse_index, max_safe_integer}

-- The decimal text of every safe integer, as the service writes an index into an entry, is parsed
-- back as that integer.
pub parse_index-decimal : (n : ℕ) → n ≤ max_safe_integer → parse_index (decimal n) ≡ ok n
unfolding parse_index decimal
parse_index-decimal n h =
    let (all, value) = decimal_from-Reads (suc n) n (omega arith) "" in
    let whole : decimal n ⧺ "" ≡ decimal n = append-nil (decimal n) in
    rw (
      beq_ne (decimal-nonempty n),
      sym (ap all_digits whole) ∙ all,
      sym (ap (value_from 0) whole) ∙ value,
      le→leb n max_safe_integer h,
    )

-- What is read is a safe integer, and only digits are read.
pub parse_index_sound :
    (raw : String) (n : ℕ)
    → parse_index raw ≡ ok n
    → (all_digits raw ≡ true) × (raw ≢ "") × (n ≤ max_safe_integer)
unfolding parse_index
parse_index_sound raw n h = ground (arith, eq_iff raw "")
