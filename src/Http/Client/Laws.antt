-- ===== src/Http/Client/Laws.antt =====
-- The repeated requests of library/src/http/http_client.cpp.
use networkio.Base.{ℕ, zero, suc, ◌≡◌, refl, Bool, List, none, some, then_eq}
use networkio.Http.Client.{lost, got, exchange, redirect_of, build_request, process_request}
use networkio.Http.Request.{Request}
use networkio.Http.Response.{Response}
use networkio.Interfaces.{ClientOps}

module _ {S : Type 0} (ops : ClientOps S) (connect : S → List ℕ → Bool × S) (set_options : S → S)
    (timed_out : S → Bool) where
  -- A connection that is lost each time is tried again each time: the request does not end, whatever
  -- the limit of redirections that is set and the number that is passed.
  pub retries_endless :
      (depth rounds follow redirects : ℕ) (address : List ℕ) (request : Request)
      → ((s : S)
          → (s' : S) × (exchange ops connect set_options timed_out rounds s address request
              ≡ some (lost s')))
      → (s : S)
      → process_request ops connect set_options timed_out depth rounds follow s address request
          redirects
        ≡ none
  unfolding process_request
  retries_endless zero rounds follow redirects address request h s = refl
  retries_endless (suc depth) rounds follow redirects address request h s =
      let (s', e) = h s in
      then_eq _ e (retries_endless depth rounds follow redirects address request h s')

  -- A server that answers each request with a redirection that can be built is asked again each time:
  -- the limit is not reached, since the number of redirections that is passed stays what it was.
  pub redirects_endless :
      (depth rounds follow redirects : ℕ)
      → ((s : S) (address : List ℕ) (request : Request)
          → (resp resp' : Response) × (s' : S) × (url : List ℕ) × (address' : List ℕ)
            × (request' : Request) × (exchange ops connect set_options timed_out rounds s address
                  request
                ≡ some (got resp s'))
            × (redirect_of ops connect set_options timed_out follow redirects resp
                ≡ some (some url, resp'))
            × (build_request url ≡ some (some (address', request'))))
      → (s : S) (address : List ℕ) (request : Request)
      → process_request ops connect set_options timed_out depth rounds follow s address request
          redirects
        ≡ none
  unfolding process_request
  redirects_endless zero rounds follow redirects h s address request = refl
  redirects_endless (suc depth) rounds follow redirects h s address request =
      let (resp, resp', s', url, address', request', e, e', e'') = h s address request in
      then_eq _ e (
        then_eq _ e'
          (then_eq _ e'' (redirects_endless depth rounds follow redirects h s' address' request')))
