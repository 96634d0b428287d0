-- ===== src/Identity/Schema/Lookup.antt =====
-- The values decoded from a disclosure, by name.
use stellar_onramp.Base.{ℕ, List, [], ◌∷◌, ◌≡◌, sym, ap, ◌∙◌, arith, if◌then◌else◌, equal, Text}
use stellar_onramp.Identity.Schema.{ClaimName, name_text, claim_index, claim_specs}
use stellar_onramp.Identity.Schema.Indexes.{name_at}

name_at-index : (n : ClaimName) → name_at (claim_index n) ≡ n
name_at-index n = ground arith

pub claim_index-injective : (n m : ClaimName) → claim_index n ≡ claim_index m → n ≡ m
claim_index-injective n m h = sym (name_at-index n) ∙ ap name_at h ∙ name_at-index m

-- The attribute of a name.
unfoldable index_in : List ClaimName → Text → ℕ
index_in [] t = 12
index_in (n ∷ ns) t = if equal (name_text n) t then claim_index n else index_in ns t

index_in-name_text : (n : ClaimName) → index_in claim_specs (name_text n) ≡ claim_index n
unfolding index_in equal
index_in-name_text n = ground arith

pub name_text-injective : (n m : ClaimName) → name_text n ≡ name_text m → n ≡ m
name_text-injective n m h =
    claim_index-injective n m
      (sym (index_in-name_text n) ∙ ap (index_in claim_specs) h ∙ index_in-name_text m)
