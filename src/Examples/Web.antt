-- ===== src/Examples/Web.antt =====
-- The theorems on the HTTP front end, for the routes "/" and "/2.0/execenv".
use ymir_project.Base.{
  ◌≡◌, refl, Bool, true, false, ◌&&◌, none, some, [], ◌∷◌, ◌++◌, map, if◌then◌else◌, arith,
}
use ymir_project.StringClass.{text_eq}
use ymir_project.StringClass.Split.{tokens, tokens_from}
use ymir_project.Buffer.{◌>>=◌}
use ymir_project.Host.{ℤ, pos, Text, text, M, World, pure}
use ymir_project.Host.Laws.{Returns}
use ymir_project.Units.Cache.{Json}
use ymir_project.Http.{
  replace_double_slashes, squeeze, are_paths_equal, match_parts, is_match, Handler, Routes,
  register_handler, route_of, store_upload, request_body, new_buffer,
}
use ymir_project.Http.Matching.{is_match-normal}
use ymir_project.Http.MethodLists.{or_else}
use ymir_project.Http.Routes.{route_of-register_handler}
use ymir_project.Http.Body.{request_body-store_upload, request_body-new_buffer}
use ymir_project.Http.Replies.{ok, execenv_ls}
use ymir_project.Http.Replies.Answers.{Reply, execenv_ls-Listed}

abbrev answering : ℤ → Handler
answering status body = pure (status, body)

abbrev root_route : Routes
root_route =
    record { key = text "/"; value = record { key = text "GET"; value = answering ok } ∷ [] } ∷ []

is_match-normal_example :
    is_match (text "/2.0/execenv") (text "/2.0//execenv")
    ≡ text_eq
        (replace_double_slashes (text "/2.0/execenv"))
        (replace_double_slashes (text "/2.0//execenv"))
is_match-normal_example = is_match-normal (text "/2.0/execenv") (text "/2.0//execenv")

unlike : is_match (text "/") (text "/2.0/execenv") ≡ false
unfolding is_match replace_double_slashes are_paths_equal squeeze text_eq text tokens tokens_from
    match_parts
unlike = refl

differ : is_match (text "/") (text "/2.0/execenv") ≡ true → text "/" ≡ text "/2.0/execenv"
differ e = absurd (cc (e, unlike))

route_of-register_handler_example :
    route_of
      (register_handler (text "/2.0/execenv") (text "POST") (answering ok) root_route)
      (text "/2.0//execenv")
      (text "POST")
    ≡ (if is_match (text "/2.0/execenv") (text "/2.0//execenv")
          && text_eq (text "POST") (text "POST")
        then some
            (or_else (route_of root_route (text "/2.0//execenv") (text "POST")) (answering ok))
        else route_of root_route (text "/2.0//execenv") (text "POST"))
route_of-register_handler_example =
    route_of-register_handler (text "/2.0/execenv") (text "POST") (answering ok) root_route
      (text "/2.0//execenv") (text "POST") (differ, (tt, tt), tt)

request_body-store_upload_example :
    store_upload (97 ∷ []) (map some (123 ∷ 125 ∷ []) ++ some 0 ∷ []) >>= request_body
    ≡ some (97 ∷ 125 ∷ [])
request_body-store_upload_example =
    request_body-store_upload (123 ∷ 125 ∷ []) (97 ∷ []) [] (omega arith, (omega arith, tt))
      (omega arith, tt) (omega arith)

request_body-new_buffer_example : store_upload (123 ∷ 125 ∷ []) new_buffer >>= request_body ≡ none
request_body-new_buffer_example =
    request_body-new_buffer (123 ∷ 125 ∷ []) (omega arith, (omega arith, tt))

abbrev print_nothing : Json → Text
print_nothing j = []

abbrev device_name : ℤ → Text
device_name n = text "/dev/loop0"

abbrev refresh_path : Text → M Bool
refresh_path c = pure true

-- Two containers, and no text for a name.
abbrev two_containers : World
two_containers tr c = record { number = pos 2; string = none; texts = text "box" ∷ text "web" ∷ [] }

execenv_ls-Listed_example :
    Returns
      (Reply print_nothing (text "box" ∷ text "web" ∷ []) [])
      (execenv_ls print_nothing [] two_containers [])
execenv_ls-Listed_example =
    execenv_ls-Listed print_nothing [] two_containers [] (text "box" ∷ text "web" ∷ []) refl refl
