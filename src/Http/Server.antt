-- ===== src/Http/Server.antt =====
-- The response writer of net/http's server, which runs a handler. Headers are sent with the first
-- final status; a second status is ignored, and one from 100 to 199, but 101, is informational
-- and does not end the headers; another below 100 or above 999 is a panic.
use txova_go_middleware.Base.{
  ℕ, Bool, true, false, not, ◌&&◌, ◌||◌, Option, none, some, List, [], ◌∷◌, ◌++◌, leb, ◌==◌, ℕ_eq,
  if◌then◌else◌, take, Text,
}
use txova_go_middleware.Http.Headers.{Header, header_set}
use txova_go_middleware.Http.Program.{
  WriteError, Panic, invalid_code, Program, ret, throw, load, store, get_header, set_header,
  write_header, write,
}

pub record Response : Type 0 where
  pub header : Header
  pub status : Option ℕ
  pub sent : Header  -- the headers as they went out
  pub informational : List ℕ
  pub body : Text

abbrev pub new_response : Response
new_response = record { header = []; status = none; sent = []; informational = []; body = [] }

abbrev pub is_sent : Option ℕ → Bool
is_sent none = false
is_sent (some _) = true

abbrev pub is_informational : ℕ → Bool
is_informational code = leb 100 code && leb code 199 && not (code == 101)

abbrev pub is_valid_code : ℕ → Bool
is_valid_code code = leb 100 code && leb code 999

-- `w.WriteHeader(code)` for a valid code.
unfoldable pub put_status : ℕ → Response → Response
put_status code w =
    if is_sent w.status
    then w
    else if is_informational code
    then record w { informational = w.informational ++ code ∷ [] }
    else record w { status = some code; sent = w.header }

-- How a run ends.
pub data End (A : Type 0) : Type 0 where
  returned : A → End A
  panicked : Panic → End A

pub record Run (σ A : Type 0) : Type 0 where
  pub end : End A
  pub state : σ
  pub response : Response

-- What `Write` reports for some bytes: how many the connection took, and an error.
abbrev pub Connection : Type 0
Connection = Response → Text → ℕ × Option WriteError

-- `w.Write(b)`: 200 is sent first, if no status was.
unfoldable pub put_bytes : ℕ → Text → Response → Response
unfolding put_status
put_bytes n b w = let w' = put_status 200 w in record w' { body = w'.body ++ take n b }

module _ (conn : Connection) where
  -- A write sends the status 200 first, if there is none, and then the bytes.
  unfoldable pub delivered : Response → Text → ℕ × Option WriteError
  unfolding put_status
  delivered w b = conn (put_status 200 w) b

  unfoldable pub run : {σ A : Type 0} → Program σ A → σ → Response → Run σ A
  run (ret a) s w = record { end = returned a; state = s; response = w }
  run (throw p) s w = record { end = panicked p; state = s; response = w }
  run (load k) s w = run (k s) s w
  run (store s' m) s w = run m s' w
  run (get_header k) s w = run (k w.header) s w
  run (set_header key v m) s w = run m s (record w { header = header_set w.header key v })
  run (write_header code k) s w =
      let sends = run (k none) s (put_status code w) in
      let fails = run (k (some invalid_code)) s w in
      if is_sent w.status || is_valid_code code then sends else fails
  run (write b k) s w =
      run (k (delivered w b).0 (delivered w b).1) s (put_bytes (delivered w b).0 b w)

  -- What follows a run that ended in `e`.
  unfoldable pub resume : {σ A B : Type 0} → Run σ A → (A → Program σ B) → Run σ B
  resume r f = elim r.end [
    | returned a ↦ run (f a) r.state r.response
    | panicked p ↦ record { end = panicked p; state = r.state; response = r.response }
  ]
