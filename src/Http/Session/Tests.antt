-- ===== src/Http/Session/Tests.antt =====
-- Two clients without a cookie.
use networkio.Base.{ℕ, ◌≡◌, refl, true, false, List, [], none, some}
use networkio.Http.Parser.{field, find_field}
use networkio.Http.Server.{fresh_connection}
use networkio.Http.Session.{
  Sessions, get, cookie_of, looked_up, with_cookie, implement_me, is_free, find_session,
}
use networkio.Http.Session.Laws.{get_hangs}
use networkio.Text.{eq_text}

none_yet : (sid : List ℕ) → is_free (find_session [] sid) ≡ true
unfolding find_session
none_yet sid = refl

no_cookie : eq_text implement_me (cookie_of fresh_connection) ≡ false
unfolding eq_text field find_field
no_cookie = refl

get_hangs_example :
    (ss' : Sessions) × (get 1 [] fresh_connection
      ≡ some (implement_me, ss', with_cookie (looked_up fresh_connection) implement_me))
    × (get 9 ss' fresh_connection ≡ none)
get_hangs_example =
    get_hangs 0 9 [] fresh_connection fresh_connection (none_yet (cookie_of fresh_connection))
      (none_yet implement_me) (none_yet (cookie_of fresh_connection)) no_cookie
