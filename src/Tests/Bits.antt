-- ===== src/Tests/Bits.antt =====
-- A bit list whose encoding is the text of its bits, in place of the package
-- @interop/vc-bitstring-status-list, with the laws that service/src/status-lists relies on.
use Prim.Native.Char.{code}
use vcalm_status_service.Common.{
  ℕ, zero, suc, ◌≤◌, ◌<◌, String, ◌≡◌, refl, ap, Bool, true, false, Option, none, some, List, [],
  ◌∷◌, arith, length, ◌==◌, nat_eq, if◌then◌else◌, string_eq,
}
use vcalm_status_service.Json.{end}
use vcalm_status_service.VcSigner.{one, one_type}
use vcalm_status_service.StatusLists.Bitstring.{BitstringLibrary, BitstringLaws}

abbrev clear : ℕ → List Bool
clear zero = []
clear (suc n) = false ∷ clear n

abbrev get : List Bool → ℕ → Option Bool
get [] i = none
get (b ∷ bs) zero = some b
get (b ∷ bs) (suc i) = get bs i

abbrev with_first : Bool → Option (List Bool) → Option (List Bool)
with_first b none = none
with_first b (some bs) = some (b ∷ bs)

abbrev set : List Bool → ℕ → Bool → Option (List Bool)
set [] i v = none
set (b ∷ bs) zero v = some (v ∷ bs)
set (b ∷ bs) (suc i) v = with_first b (set bs i v)

abbrev encode : List Bool → String
encode [] = ""
encode (true ∷ bs) = String.◌∷◌ "1" (encode bs)
encode (false ∷ bs) = String.◌∷◌ "0" (encode bs)

abbrev decode : String → Option (List Bool)
decode String.[] = some []
decode (String.◌∷◌ c s) =
    let rest = decode s in
    if code c == b'1'
    then with_first true rest
    else if code c == b'0'
    then with_first false rest
    else none

abbrev pub bits : BitstringLibrary
bits = record {
  BitstringStatusList = List Bool;
  size = length;
  create_list = clear;
  decode_list = decode;
  get_status = get;
  set_status = set;
  create_credential = λ u b p. record {
    context = one "https://www.w3.org/ns/credentials/v2";
    id = u;
    type = one_type "BitstringStatusListCredential";
    subject = record { encoded_list = encode b; others = end };
  };
}

length-clear : (n : ℕ) → length (clear n) ≡ n
length-clear zero = refl
length-clear (suc n) = ap suc (length-clear n)

get-clear : (n i : ℕ) → i < n → get (clear n) i ≡ some false
get-clear zero i h = absurd (omega arith)
get-clear (suc n) zero h = refl
get-clear (suc n) (suc i) h = get-clear n i (omega arith)

get_in_range : (b : List Bool) (i : ℕ) → i < length b → (v : Bool) × (get b i ≡ some v)
get_in_range [] i h = absurd (omega arith)
get_in_range (b ∷ bs) zero h = (b, refl)
get_in_range (b ∷ bs) (suc i) h = get_in_range bs i (omega arith)

get-same :
    (b c : List Bool) (x : Bool) (i : ℕ) (v : Bool)
    → ((j : ℕ) → j < length b → get c j ≡ (if i == j then some v else get b j))
    → (j : ℕ) → j < suc (length b)
    → get (x ∷ c) j ≡ (if suc i == j then some v else get (x ∷ b) j)
get-same b c x i v h zero k = ground arith
get-same b c x i v h (suc j) k = ground (arith, h j)

get-first :
    (b : Bool) (bs : List Bool) (v : Bool) (j : ℕ)
    → j < suc (length bs)
    → get (v ∷ bs) j ≡ (if 0 == j then some v else get (b ∷ bs) j)
get-first b bs v zero k = refl
get-first b bs v (suc j) k = ground arith

set_in_range :
    (b : List Bool) (i : ℕ) (v : Bool)
    → i < length b
    → (c : List Bool) × (set b i v ≡ some c)
      × (length b ≤ length c)
      × ((j : ℕ) → j < length b → get c j ≡ (if i == j then some v else get b j))
set_in_range [] i v h = absurd (omega arith)
set_in_range (b ∷ bs) zero v h = (v ∷ bs, refl, omega arith, get-first b bs v)
set_in_range (b ∷ bs) (suc i) v h =
    let (c, e, size, same) = set_in_range bs i v (omega arith) in
    (b ∷ c, rw e refl, omega arith, get-same bs c b i v same)

decode-encode : (b : List Bool) → decode (encode b) ≡ some b
decode-encode [] = refl
decode-encode (true ∷ bs) = rw (decode-encode bs)
decode-encode (false ∷ bs) = rw (decode-encode bs)

pub bits-BitstringLaws : BitstringLaws bits
bits-BitstringLaws = record {
  size-create = λ n. omega (arith, length-clear n);
  get-create = get-clear;
  get_in_range = get_in_range;
  set_in_range = set_in_range;
  credential_id = λ u b p. refl;
  decode_credential = λ u b p. (b, decode-encode b, omega arith, λ j h. refl);
}
