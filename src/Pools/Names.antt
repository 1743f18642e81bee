-- ===== src/Pools/Names.antt =====
-- The names that `src/pools.ts` lets through, and what its operations throw.
use Prim.Native.Char.{code}
use falda.Prelude.{
  ℕ, suc, String, Bool, true, false, ◌&&◌, ◌||◌, List, [], ◌∷◌, ltb, leb, ◌==◌, if◌then◌else◌,
  str_eq, ◌≡◌, refl, ◌⊎◌, inl, inr,
}
use falda.Pools.Persist.{Access, PoolErrorCode, bad_name, bad_tenant, reserved}

abbrev pub Members : Type 0
Members = List (String × Access)

-- A PoolError, or the TypeError of reading a property of undefined.
pub data Thrown : Type 0 where
  pool_error : PoolErrorCode → Thrown
  type_error : Thrown

pub data Result (A : Type 0) : Type 0 where
  ok : A → Result A
  throw : Thrown → Result A

pub Result-cases :
    {A : Type 0} (r : Result A) → ((a : A) × (r ≡ ok a)) ⊎ ((e : Thrown) × (r ≡ throw e))
Result-cases (ok a) = inl (a, refl)
Result-cases (throw e) = inr (e, refl)

infixl 5 ◌>>=◌ ◌>>◌
abbrev pub ◌>>=◌ : {A B : Type 0} → Result A → (A → Result B) → Result B
ok a >>= f = f a
throw e >>= f = throw e

abbrev pub ◌>>◌ : {B : Type 0} → Result (Unit {0}) → Result B → Result B
m >> k = m >>= λ _. k

abbrev pub check : Bool → PoolErrorCode → Result (Unit {0})
check true code = ok tt
check false code = throw (pool_error code)

-- /^[a-z0-9][a-z0-9_-]{0,63}$/
unfoldable pub is_alphanumeric : ℕ → Bool
is_alphanumeric c = (leb b'0' c && leb c b'9') || (leb b'a' c && leb c b'z')

unfoldable pub all_name_characters : String → Bool
unfolding is_alphanumeric
all_name_characters String.[] = true
all_name_characters (String.◌∷◌ c s) =
    (is_alphanumeric (code c) || code c == b'_' || code c == b'-') && all_name_characters s

unfoldable pub text_length : String → ℕ
text_length String.[] = 0
text_length (String.◌∷◌ c s) = suc (text_length s)

unfoldable pub matches_name : String → Bool
unfolding is_alphanumeric all_name_characters text_length
matches_name String.[] = false
matches_name (String.◌∷◌ c s) =
    is_alphanumeric (code c) && ltb (text_length s) 64 && all_name_characters s

unfoldable pub v_tenant : String → Result (Unit {0})
v_tenant t = check (matches_name t) bad_tenant

unfoldable pub v_name : String → Result (Unit {0})
v_name n = if str_eq n "self" then throw (pool_error reserved) else check (matches_name n) bad_name

-- for (const t of Object.keys(members)) this.vTenant(t)
unfoldable pub v_tenants : Members → Result (Unit {0})
unfolding v_tenant
v_tenants [] = ok tt
v_tenants ((t, a) ∷ ms) = do v_tenant t; v_tenants ms

-- The names that every object inherits from `Object.prototype`.
unfoldable pub is_inherited : String → Bool
is_inherited k =
    str_eq k "constructor"
    || str_eq k "toString"
    || str_eq k "valueOf"
    || str_eq k "hasOwnProperty"
    || str_eq k "isPrototypeOf"
    || str_eq k "propertyIsEnumerable"
    || str_eq k "toLocaleString"
    || str_eq k "__proto__"
    || str_eq k "__defineGetter__"
    || str_eq k "__defineSetter__"
    || str_eq k "__lookupGetter__"
    || str_eq k "__lookupSetter__"
