-- ===== src/VcSigner/Keys.antt =====
-- packages/vc-signer/src/key-material.ts: the decoding of a seed and the making of fresh key
-- material. The multibase decoder and the generators are parameters.
use Prim.Native.Nat.{◌/◌, ◌%◌}
use Prim.Native.Char.{code}
use vcalm_status_service.Common.{
  ℕ, zero, suc, ◌+◌, ◌≤◌, String, ◌≡◌, refl, ap, sym, ◌∙◌, Bool, true, false, Option, none, some,
  List, [], ◌∷◌, ◌++◌, length, length-append, arith, ltb, leb, leb→le, ◌==◌, string_eq, nat_eq,
  if◌then◌else◌,
}
use vcalm_status_service.Errors.{Result, ok, err, signing_error, invalid_key_material}
use vcalm_status_service.VcSigner.{
  Cryptosuite, KeyFamily, ed25519, p256, KeyMaterial, ed25519_seed, multikey,
}
use vcalm_status_service.VcSigner.Signer.{key_family, key_material_matches_cryptosuite}

-- `SEED_BYTES`
abbrev pub seed_bytes : ℕ
seed_bytes = 32

-- The code units of a character in UTF-16, which `length` counts, and its bytes in UTF-8.
abbrev units_of : ℕ → ℕ
units_of c = if ltb c 65536 then 1 else 2

abbrev bytes_of : ℕ → List ℕ
bytes_of c =
    if ltb c 128
    then c ∷ []
    else if ltb c 2048
    then (192 + c / 64) ∷ (128 + c % 64) ∷ []
    else if ltb c 65536
    then (224 + c / 4096) ∷ (128 + c / 64 % 64) ∷ (128 + c % 64) ∷ []
    else (240 + c / 262144) ∷ (128 + c / 4096 % 64) ∷ (128 + c / 64 % 64) ∷ (128 + c % 64) ∷ []

-- `s.length`
abbrev pub units : String → ℕ
units String.[] = 0
units (String.◌∷◌ c s) = units_of (code c) + units s

-- `new TextEncoder().encode(s)`
abbrev pub encoded : String → List ℕ
encoded String.[] = []
encoded (String.◌∷◌ c s) = bytes_of (code c) ++ encoded s

-- `bytes.slice(0, n)`
abbrev pub slice : ℕ → List ℕ → List ℕ
slice zero bytes = []
slice (suc n) [] = []
slice (suc n) (b ∷ bytes) = b ∷ slice n bytes

abbrev starts_with_z : String → Bool
starts_with_z String.[] = false
starts_with_z (String.◌∷◌ c s) = code c == b'z'

abbrev of_multibase : Option (List ℕ) → Result (List ℕ)
of_multibase none = err (signing_error invalid_key_material)
of_multibase (some bytes) = ok bytes

-- `decodeSeed`
unfoldable pub decode_seed : (String → Option (List ℕ)) → String → Result (List ℕ)
decode_seed decode_secret_key_seed seed =
    if starts_with_z seed
    then of_multibase (decode_secret_key_seed seed)
    else if leb seed_bytes (units seed)
    then ok (slice seed_bytes (encoded seed))
    else err (signing_error invalid_key_material)

-- A half of a key pair that was not exported, or is empty, is missing.
abbrev exported : Option String → Option String → Result KeyMaterial
exported (some public) (some secret) =
    if public == ""
    then err (signing_error invalid_key_material)
    else if secret == ""
    then err (signing_error invalid_key_material)
    else ok (multikey public secret)
exported _ _ = err (signing_error invalid_key_material)

abbrev fresh_for : KeyFamily → String → Option String × Option String → Result KeyMaterial
fresh_for ed25519 fresh_seed pair = ok (ed25519_seed fresh_seed)
fresh_for p256 fresh_seed (public, secret) = exported public secret

-- `generateKeyMaterial`, of what the generators give.
unfoldable pub generate_key_material :
    Cryptosuite → String → Option String × Option String → Result KeyMaterial
generate_key_material suite fresh_seed pair = fresh_for (key_family suite) fresh_seed pair

units_of-bytes_of : (c : ℕ) → units_of c ≤ length (bytes_of c)
units_of-bytes_of c = ground arith

units-encoded : (s : String) → units s ≤ length (encoded s)
units-encoded String.[] = omega arith
units-encoded (String.◌∷◌ c s) = omega (
  arith,
  units_of-bytes_of (code c),
  units-encoded s,
  length-append (bytes_of (code c)) (encoded s),
)

length-slice : (n : ℕ) (bytes : List ℕ) → n ≤ length bytes → length (slice n bytes) ≡ n
length-slice zero bytes h = refl
length-slice (suc n) [] h = absurd (omega (arith, h))
length-slice (suc n) (b ∷ bytes) h = ap suc (length-slice n bytes (omega (arith, h)))

-- Where the multibase decoder gives 32 bytes, so does every seed that is decoded.
pub decode_seed-length :
    (decode_secret_key_seed : String → Option (List ℕ))
    → ((s : String) (bytes : List ℕ) → decode_secret_key_seed s ≡ some bytes → length bytes ≡ 32)
    → (seed : String) (bytes : List ℕ) → decode_seed decode_secret_key_seed seed ≡ ok bytes
    → length bytes ≡ 32
unfolding decode_seed
decode_seed-length decode lawful seed bytes h =
    by_form (starts_with_z seed) (leb seed_bytes (units seed)) (leb→le 32 (units seed)) h
  where
    of_decoded :
        (found : Option (List ℕ))
        → ((b : List ℕ) → found ≡ some b → length b ≡ 32)
        → of_multibase found ≡ ok bytes
        → length bytes ≡ 32
    of_decoded none l e = cc
    of_decoded (some b) l e = let same : b ≡ bytes = cc in ap length (sym same) ∙ l b refl

    by_form :
        (multibase long : Bool)
        → (long ≡ true → 32 ≤ units seed)
        → (if multibase
            then of_multibase (decode seed)
            else if long
            then ok (slice seed_bytes (encoded seed))
            else err (signing_error invalid_key_material))
          ≡ ok bytes
        → length bytes ≡ 32
    by_form true long l e = of_decoded (decode seed) (lawful seed) e
    by_form false true l e =
        let same : ◌≡◌ {A = List ℕ} (slice seed_bytes (encoded seed)) bytes = cc in
        ap length (sym same)
        ∙ length-slice 32 (encoded seed) (omega (arith, l refl, units-encoded seed))
    by_form false false l e = cc

-- Material that is made for a suite suits it, so that loading it is not refused for its kind.
pub generate_key_material-suits :
    (suite : Cryptosuite) (fresh_seed : String) (pair : Option String × Option String)
    {m : KeyMaterial}
    → generate_key_material suite fresh_seed pair ≡ ok m
    → key_material_matches_cryptosuite m suite ≡ true
unfolding generate_key_material
generate_key_material-suits suite fresh_seed pair h = ground arith
