-- ===== src/Identity/Binding/Canonical.antt =====
-- The canonical bytes of a binding (packages/identity/src/binding.ts) and what they tell of it.
use mathlib.Core.Path.{subst}
use mathlib.Core.List.{append-nil}
use stellar_onramp.Base.{
  ℕ, ◌+◌, ◌*◌, ◌<◌, ◌≡◌, refl, sym, ap, ◌∙◌, arith, true, not, List, [], ◌∷◌, ◌++◌, leb, leb→le,
  length, ok, >>=-eq-ok, guard-eq-ok, or_throw-eq-ok, ok-injective, nat, to_nat?, to_nat?_sound,
  Bytes, Text, equal, is_hex32,
}
use stellar_onramp.Identity.Gzip.{join}
use stellar_onramp.Identity.Hashes.{Hashes, IsNoble, IsAscii}
use stellar_onramp.Identity.Binding.{
  ProofBinding, binding_domain, all_base32, is_strkey_c, is_strkey_any, assert_valid_binding, u32be,
  len_prefixed, canonical_binding_bytes,
}

-- What `assertValidBinding` has checked.
pub record IsValid (b : ProofBinding) (expiry : ℕ) : Type 0 where
  pub nonce_h : is_hex32 b.nonce ≡ true
  pub wallet_h : is_strkey_any b.wallet_address ≡ true
  pub contract_h : is_strkey_c b.contract_id ≡ true
  pub expiry_h : b.ledger_expiry ≡ nat expiry
  pub expiry_u32 : expiry < 4294967296

pub assert-IsValid :
    (b : ProofBinding) {expiry : ℕ} → assert_valid_binding b ≡ ok expiry → IsValid b expiry
unfolding assert_valid_binding
assert-IsValid b h =
    let (nonce, h₁) = guard-eq-ok (is_hex32 b.nonce) _ h in
    let (wallet, h₂) = guard-eq-ok (is_strkey_any b.wallet_address) _ h₁ in
    let (contract, h₃) = guard-eq-ok (is_strkey_c b.contract_id) _ h₂ in
    let (_, h₄) = guard-eq-ok (not (equal b.network_passphrase [])) _ h₃ in
    let (expiry, e, h₅) = or_throw-eq-ok (to_nat? b.ledger_expiry) _ _ h₄ in
    let (few, h₆) = guard-eq-ok (leb expiry 4294967295) _ h₅ in
    let few_h = leb→le _ _ few in
    subst (IsValid b) (ok-injective h₆) (record {
      nonce_h = nonce;
      wallet_h = wallet;
      contract_h = contract;
      expiry_h = to_nat?_sound b.ledger_expiry e;
      expiry_u32 = omega (arith, few_h);
    })

-- The number that four bytes stand for.
from_u32be : Bytes → ℕ
from_u32be (a ∷ b ∷ c ∷ d ∷ []) = a * 16777216 + b * 65536 + c * 256 + d
from_u32be _ = 0

from_u32be-u32be : (n : ℕ) → n < 4294967296 → from_u32be (u32be n) ≡ n
unfolding from_u32be
from_u32be-u32be n h = omega arith

u32be-injective : (m n : ℕ) → m < 4294967296 → n < 4294967296 → u32be m ≡ u32be n → m ≡ n
u32be-injective m n hm hn e = sym (from_u32be-u32be m hm) ∙ ap from_u32be e ∙ from_u32be-u32be n hn

append-injective {ℓ} :
    {A : Type ℓ} (xs ys r s : List A)
    → length xs ≡ length ys
    → xs ++ r ≡ ys ++ s
    → (xs ≡ ys) × (r ≡ s)
append-injective [] [] r s l e = (refl, e)
append-injective [] (y ∷ ys) r s l e = absurd (ground arith)
append-injective (x ∷ xs) [] r s l e = absurd (ground arith)
append-injective (x ∷ xs) (y ∷ ys) r s l e =
    let (same, rest) = append-injective xs ys r s (omega (arith, l)) (cc) in
    let first : x ≡ y = cc in (cc, rest)

strkey_c-any : (text : Text) → is_strkey_c text ≡ true → is_strkey_any text ≡ true
strkey_c-any [] h = h
strkey_c-any (c ∷ cs) h = ground (arith, h)

-- The header of a field tells where the field ends.
module _ (hashes : Hashes) (noble : IsNoble hashes) where
  len_prefixed-append : (x r : Bytes) → len_prefixed hashes x ++ r ≡ u32be (length x) ++ (x ++ r)
  unfolding len_prefixed join
  len_prefixed-append x r =
      ap (λ b. b ++ r) (noble.concat_join (u32be (length x) ∷ x ∷ []))
      ∙ ap (λ b. u32be (length x) ++ (b ++ r)) (append-nil x)

  len_prefixed-injective :
      (x y r s : Bytes)
      → length x < 4294967296
      → length y < 4294967296
      → len_prefixed hashes x ++ r ≡ len_prefixed hashes y ++ s
      → (x ≡ y) × (r ≡ s)
  len_prefixed-injective x y r s hx hy e =
      let e₁ = sym (len_prefixed-append x r) ∙ e ∙ len_prefixed-append y s in
      let (header, rest) =
        append-injective (u32be (length x)) (u32be (length y)) (x ++ r) (y ++ s) refl e₁ in
      append-injective x y r s (u32be-injective (length x) (length y) hx hy header) rest

  all_base32-IsAscii : (text : Text) → all_base32 text ≡ true → IsAscii text
  unfolding all_base32
  all_base32-IsAscii [] h = tt
  all_base32-IsAscii (c ∷ cs) h = (ground (arith, h), all_base32-IsAscii cs (ground (arith, h)))

  -- The bytes of an address are its characters.
  utf8-strkey :
      (text : Text)
      → is_strkey_any text ≡ true
      → (hashes.utf8_to_bytes text ≡ text) × (length text ≡ 56)
  utf8-strkey [] h = absurd (cc)
  utf8-strkey (c ∷ cs) h = (
    noble.utf8_ascii (c ∷ cs) (ground (arith, h), all_base32-IsAscii cs (ground (arith, h))),
    ground (arith, h),
  )

  -- A field of 32 bytes, or another short length, in front of the rest.
  fields-injective :
      (x y r s : Bytes) (n : ℕ)
      → n < 4294967296
      → length x ≡ n
      → length y ≡ n
      → len_prefixed hashes x ++ r ≡ len_prefixed hashes y ++ s
      → (x ≡ y) × (r ≡ s)
  fields-injective x y r s n h hx hy e =
      len_prefixed-injective x y r s (omega (arith, h, hx)) (omega (arith, h, hy)) e

  -- The fields in front of the network and the sequence.
  canonical_fields : ProofBinding → ℕ → Bytes
  canonical_fields b expiry =
      len_prefixed hashes (hashes.utf8_to_bytes binding_domain)
      ++ (len_prefixed hashes (hashes.hex_to_bytes b.nonce)
          ++ (len_prefixed hashes (hashes.utf8_to_bytes b.wallet_address)
              ++ (len_prefixed hashes (hashes.utf8_to_bytes b.contract_id)
                  ++ (len_prefixed hashes
                        (hashes.sha256 (hashes.utf8_to_bytes b.network_passphrase))
                      ++ (len_prefixed hashes (u32be expiry) ++ [])))))

  canonical-eq-ok :
      (b : ProofBinding) {bytes : Bytes}
      → canonical_binding_bytes hashes b ≡ ok bytes
      → (expiry : ℕ) × IsValid b expiry × (canonical_fields b expiry ≡ bytes)
  unfolding canonical_binding_bytes canonical_fields join
  canonical-eq-ok b h =
      let (expiry, valid, h₁) = >>=-eq-ok (assert_valid_binding b) _ h in
      (expiry, assert-IsValid b valid, sym (noble.concat_join _) ∙ ok-injective h₁)

  -- Bindings with the same canonical bytes name one nonce, wallet, contract and ledger sequence, and
  -- passphrases of one digest, where the hash library does what it documents.
  pub canonical_binding_bytes-injective :
      (a b : ProofBinding) {bytes : Bytes}
      → canonical_binding_bytes hashes a ≡ ok bytes
      → canonical_binding_bytes hashes b ≡ ok bytes
      → (a.nonce ≡ b.nonce)
        × (a.wallet_address ≡ b.wallet_address)
        × (a.contract_id ≡ b.contract_id)
        × (a.ledger_expiry ≡ b.ledger_expiry)
        × (hashes.sha256 (hashes.utf8_to_bytes a.network_passphrase)
            ≡ hashes.sha256 (hashes.utf8_to_bytes b.network_passphrase))
  unfolding canonical_fields
  canonical_binding_bytes-injective a b ha hb =
      let (m, va, ea) = canonical-eq-ok a ha in
      let (n, vb, eb) = canonical-eq-ok b hb in
      let (wa, la) = utf8-strkey a.wallet_address va.wallet_h in
      let (wb, lb) = utf8-strkey b.wallet_address vb.wallet_h in
      let (ca, ka) = utf8-strkey a.contract_id (strkey_c-any a.contract_id va.contract_h) in
      let (cb, kb) = utf8-strkey b.contract_id (strkey_c-any b.contract_id vb.contract_h) in
      let domain = noble.utf8_ascii binding_domain (ground arith) in
      let (_, e₁) =
        fields-injective _ _ _ _ 37 (ground arith) (ap length domain) (ap length domain)
          (ea ∙ sym eb) in
      let (nonce, e₂) =
        fields-injective _ _ _ _ 32 (ground arith) (noble.hex_length a.nonce va.nonce_h)
          (noble.hex_length b.nonce vb.nonce_h) e₁ in
      let (wallet, e₃) =
        fields-injective _ _ _ _ 56 (ground arith) (ap length wa ∙ la) (ap length wb ∙ lb) e₂ in
      let (contract, e₄) =
        fields-injective _ _ _ _ 56 (ground arith) (ap length ca ∙ ka) (ap length cb ∙ kb) e₃ in
      let (network, e₅) =
        fields-injective _ _ _ _ 32 (ground arith) (noble.digest_length _) (noble.digest_length _)
          e₄ in
      let (expiry, _) = fields-injective (u32be m) (u32be n) [] [] 4 (ground arith) refl refl e₅ in
      (
        noble.hex_injective a.nonce b.nonce va.nonce_h vb.nonce_h nonce,
        sym wa ∙ wallet ∙ wb,
        sym ca ∙ contract ∙ cb,
        va.expiry_h
            ∙ ap nat (u32be-injective m n va.expiry_u32 vb.expiry_u32 expiry)
            ∙ sym vb.expiry_h,
        network,
      )
