-- ===== src/RequestId.antt =====
-- requestid/requestid.go: the request ID of a request. `default_generator` stands for
-- `DefaultGenerator`, which calls package uuid.
pub mod Laws
use txova_go_middleware.Base.{[], Option, some, List, ◌==◌, if◌then◌else◌, Text, Text_eq, codes}
use txova_go_middleware.Context.{with_request_id}
use txova_go_middleware.Http.Headers.{header_get}
use txova_go_middleware.Http.Program.{
  Request, Program, ret, ◌>>=◌, ◌>>◌, set, Handler, Middleware, with_context,
}
use txova_go_middleware.Http.Logging.{apply_options}

abbrev pub default_header_name : Text
default_header_name = codes "X-Request-ID"

-- A generator may draw on the shared state.
abbrev pub Generator : Type 0 → Type 0
Generator σ = Program σ Text

pub record Config (σ : Type 0) : Type 0 where
  pub header_name : Text
  pub generator : Generator σ

pub with_header_name : {σ : Type 0} → Text → Config σ → Config σ
with_header_name name c = record c { header_name = name }

pub with_generator : {σ : Type 0} → Generator σ → Config σ → Config σ
with_generator g c = record c { generator = g }

module _ {σ : Type 0} (default_generator : Generator σ) where
  unfoldable pub configure : List (Config σ → Config σ) → Config σ
  unfolding apply_options
  configure opts =
      apply_options opts
        (record { header_name = default_header_name; generator = default_generator })

  -- The ID of the header, or a generated one.
  unfoldable pub choose_id : Config σ → Request → Program σ Text
  choose_id cfg r =
      let request_id = header_get r.header cfg.header_name in
      if request_id == [] then cfg.generator else ret request_id

  unfoldable pub middleware : List (Config σ → Config σ) → Middleware σ
  unfolding choose_id
  middleware opts next r = do
    let cfg = configure opts
    request_id ← choose_id cfg r
    let ctx = with_request_id (some r.context) request_id
    set cfg.header_name request_id
    next (with_context r ctx)
