-- ===== src/Http/Headers.antt =====
-- `http.Header`: values under canonical keys, with `Get` and `Set`.
use txova_go_middleware.Base.{
  ℕ, ◌≡◌, refl, Bool, true, ◌&&◌, ◌||◌, List, [], ◌∷◌, arith, ◌==◌, ℕ_eq, leb, if◌then◌else◌,
  contains, Text, Text_eq, text_eq_iff, codes, lower, upper,
}

abbrev pub Header : Type 0
Header = List (Text × List Text)

-- A byte that a header name may hold (RFC 7230, a token).
is_token : ℕ → Bool
unfolding contains
is_token c =
    (leb b'0' c && leb c b'9')
    || (leb b'a' c && leb c b'z')
    || (leb b'A' c && leb c b'Z')
    || contains (codes "!#$%&'*+-.^_`|~") c

all_tokens : Text → Bool
unfolding is_token
all_tokens [] = true
all_tokens (c ∷ s) = is_token c && all_tokens s

-- Upper case at the start and after a hyphen, lower case elsewhere.
words : Bool → Text → Text
words start [] = []
words start (c ∷ s) = (if start then upper c else lower c) ∷ words (c == b'-') s

-- `CanonicalMIMEHeaderKey`: a name with a byte that is no token is left as it is.
unfoldable pub canonical : Text → Text
unfolding all_tokens words
canonical key = if all_tokens key then words true key else key

-- The first value under a canonical key, or the empty text.
first_value : List Text → Text
first_value [] = []
first_value (v ∷ vs) = v

find : Text → Header → Text
unfolding first_value
find key [] = []
find key ((k, vs) ∷ h) = if k == key then first_value vs else find key h

put : Text → Text → Header → Header
put key v [] = (key, v ∷ []) ∷ []
put key v ((k, vs) ∷ h) = if k == key then (key, v ∷ []) ∷ h else (k, vs) ∷ put key v h

-- `h.Get(key)`
unfoldable pub header_get : Header → Text → Text
unfolding find
header_get h key = find (canonical key) h

-- `h.Set(key, value)`
unfoldable pub header_set : Header → Text → Text → Header
unfolding put
header_set h key v = put (canonical key) v h

find-put : (key k v : Text) (h : Header) → find k (put key v h) ≡ (if key == k then v else find k h)
unfolding find put
find-put key k v [] = refl
find-put key k v ((j, vs) ∷ h) =
    ground (arith, text_eq_iff key k, text_eq_iff j key, text_eq_iff j k, find-put key k v h)

pub header_get-set :
    (h : Header) (key k v : Text)
    → header_get (header_set h key v) k
      ≡ (if canonical key == canonical k then v else header_get h k)
unfolding header_get header_set
header_get-set h key k v = find-put (canonical key) (canonical k) v h

canonical_test : canonical (codes "x-request-ID") ≡ codes "X-Request-Id"
unfolding canonical
canonical_test = refl
