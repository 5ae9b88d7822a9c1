-- ===== src/Tests/Logs.antt =====
-- Masked queries, and the entry of a request.
use txova_go_middleware.Base.{
  inl, ℕ, ◌+◌, ◌≡◌, ◌≢◌, refl, some, List, [], ◌∷◌, ◌++◌, All, Holds, Text, Text_eq, text_eq,
  ne_of_text_eq, codes, contains, contains_iff, Lacks, arith,
}
use txova_go_middleware.Base.Int.{ℤ, pos, ◌-ℤ◌}
use txova_go_middleware.Http.Server.{
  Response, returned, delivered, run, new_response, put_status, put_bytes,
}
use txova_go_middleware.Http.Final.{SendsFinal}
use txova_go_middleware.Http.Logging.{Entry, Logger}
use txova_go_middleware.RequestLog.{configure, middleware}
use txova_go_middleware.RequestLog.Laws.{middleware_logs_once}
use txova_go_middleware.RequestLog.Sizes.{taken}
use txova_go_middleware.RequestLog.Entries.{Describes}
use txova_go_middleware.RequestLog.Mask.{join, mask_query_params}
use txova_go_middleware.RequestLog.Mask.Laws.{mask_hides_value}
use txova_go_middleware.Tests.Samples.{conn, plain, serve}

abbrev to_lower : Text → Text
to_lower s = s

abbrev mask_set : List Text
mask_set = codes "token" ∷ []

page-Lacks : All (Lacks b'&') (codes "page=1" ∷ [])
page-Lacks = ground arith

token-Lacks : Lacks b'&' (codes "token")
token-Lacks = ground arith

abc-Lacks : Lacks b'&' (codes "abc")
abc-Lacks = ground arith

xy-Lacks : Lacks b'&' (codes "xy")
xy-Lacks = ground arith

token-LacksEquals : Lacks b'=' (codes "token")
token-LacksEquals = ground arith

token_given : codes "token" ≢ []
unfolding text_eq
token_given = ne_of_text_eq _ _ refl

mask_hides_value_example :
    mask_query_params to_lower mask_set
      (join ((codes "page=1" ∷ []) ++ (codes "token" ++ b'=' ∷ codes "abc") ∷ []) b'&')
    ≡ mask_query_params to_lower mask_set
        (join ((codes "page=1" ∷ []) ++ (codes "token" ++ b'=' ∷ codes "xy") ∷ []) b'&')
mask_hides_value_example =
    mask_hides_value to_lower mask_set (codes "page=1" ∷ []) [] (codes "token") (codes "abc")
      (codes "xy") page-Lacks tt token-Lacks abc-Lacks xy-Lacks token_given token-LacksEquals
      (inl refl)

-- The state counts the entries, and its clock does not move.
abbrev now : ℕ → ℤ
now n = pos 0

abbrev counting : Logger ℕ
counting entry n = n + 1

rides_logged : ¬ Holds (configure []).exclude_paths plain.path
unfolding configure contains text_eq
rides_logged h = let e = (contains_iff (configure []).exclude_paths plain.path).1 h in cc

plain-SendsFinal : SendsFinal (serve plain)
unfolding SendsFinal
plain-SendsFinal = ((refl, refl), λ n e. tt)

abbrev ok_response : Response
ok_response = record {
  header = [];
  status = some 200;
  sent = [];
  informational = [];
  body = codes "ok";
}

plain_runs :
    run conn (serve plain) 0 new_response
    ≡ record { end = returned tt; state = 0; response = ok_response }
unfolding run put_status put_bytes delivered
plain_runs = refl

middleware_logs_once_example :
    (e : Entry) × Describes to_lower (configure []) plain (pos 0 -ℤ pos 0) 200 2 e
    × (run conn (middleware to_lower now counting [] serve plain) 0 new_response
        ≡ record { end = returned tt; state = counting e 0; response = ok_response })
unfolding taken put_status put_bytes delivered
middleware_logs_once_example =
    middleware_logs_once to_lower now counting [] serve plain conn 0 0 new_response ok_response
      rides_logged plain-SendsFinal refl plain_runs
