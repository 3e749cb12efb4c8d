-- ===== src/Http/Server/Laws.antt =====
-- What the server of library/src/http/http_server.cpp does with a URI, and how a response leaves it.
use networkio.Base.{
  take_twice, take-take, ◌⊎◌, ℕ, ◌+◌, ◌-◌, ◌≤◌, ◌<◌, ◌≡◌, refl, ap, ap₂, ◌∙◌, sym, Bool, true,
  false, List, [], ◌∷◌, ◌++◌, Option, none, some, ◌==◌, if◌then◌else◌, if_eq, if_not_eq, length,
  take, drop, arith, inl, inr, ==_false, length-take, length-drop, drop-drop, eq_cases, take_all,
}
use networkio.Http.Server.{
  get_from, Endpoint, Endpoints, lookup, Server, find_folder, folder_of, joined, handle_request_get,
  Connection,
}
use networkio.Base.Int.{pos}
use networkio.Http.Parser.{crlf, fields_text, header_to_string, set_field}
use networkio.Http.Request.{content_type}
use networkio.Http.Response.{Response, set_status, to_string, file_found, cookie_fields}
use networkio.Http.Response.Laws.{set_file_found}
use networkio.Http.Server.Paths.{spelled, AreParts, joined-spelled, tokenize-spelled}
use networkio.Http.Status.{status_code_to_str, resolve_content_type}
use networkio.Text.Numbers.{int_text}
use networkio.Http.Server.Handler.{Handler, send, written, finish}
use networkio.Interfaces.{ClientOps, SinkLaws}
use networkio.Text.{eq_text, tokenize}

-- A URI below a directory that has a folder names the file in the folder that its other tokens spell,
-- whatever they are: a token `..` is kept, so the path leads out of the folder.
pub find_folder_below :
    (es : Endpoints) (dir t : List ℕ) (ts : List (List ℕ)) (e : Endpoint) (es' : Endpoints)
    → lookup es (47 ∷ dir) ≡ (some e, es')
    → 0 < length e.m_folder
    → find_folder es [] (dir ∷ t ∷ ts) ≡ ((e.m_folder, joined (t ∷ ts)), es')
unfolding find_folder
find_folder_below es dir t ts e es' has some_folder =
    let full : (length e.m_folder == 0) ≡ false =
      ==_false (length e.m_folder) 0 (λ z. absurd (omega arith)) in
    ap
      (λ (x, y).
        if length (folder_of x) == 0
        then find_folder y (47 ∷ dir) (t ∷ ts)
        else ((folder_of x, joined (t ∷ ts)), y))
      has
    ∙ if_not_eq _ full refl

-- The text of a response with status 200 and a body, by its fields.
abbrev pub ok_text : Response → List ℕ → List ℕ → List ℕ
ok_text r fields body =
    (r.m_proto
      ++ (47 ∷ r.m_version ++ (32 ∷ int_text (pos 200) ++ (32 ∷ status_code_to_str (pos 200)))))
    ++ (crlf ++ (fields ++ (crlf ++ body)))

file_text :
    (r : Response) (f bs : List ℕ)
    → (fields : List ℕ) × ((to_string (file_found r f bs)).0 ≡ ok_text r fields bs)
unfolding to_string header_to_string set_status
file_text r f bs = (
  fields_text (
      cookie_fields r.m_cookies
        (set_field r.base.m_header_fields content_type (resolve_content_type f))),
  refl,
)

get_from_file :
    (files : List ℕ → Option (List ℕ)) (run : ℕ → Connection → Option Connection) (v : Server)
    (conn : Connection) (folder path : List ℕ) (es : Endpoints) (bs : List ℕ)
    → 0 < length folder
    → files (folder ++ path) ≡ some bs
    → 0 < length bs
    → get_from files run v conn folder path es
      ≡ some (
        (to_string (file_found conn.m_response (folder ++ path) bs)).0,
        record v { m_endpoints = es },
      )
unfolding get_from
get_from_file files run v conn folder path es bs some_folder file some_bs =
    let read = set_file_found files conn.m_response (folder ++ path) bs file some_bs in
    if_eq _
      (if_not_eq _ (==_false (length folder) 0 (λ z. absurd (omega arith)))
        (ap (λ (ok, r). ok) read))
      (ap (λ (ok, r). some ((to_string r).0, record v { m_endpoints = es })) read)

-- A GET of "/" and a first part that names an endpoint with a folder, and at least one more part,
-- answers with status 200 and the bytes of the file of which the path is the folder and then the rest
-- of the URI as it stands, if that file is there and is not empty. A part may be any text that is
-- not empty and has no "/", so it may be "..": then the file need not lie below the folder.
pub get_reads_below :
    (files : List ℕ → Option (List ℕ)) (run : ℕ → Connection → Option Connection) (v : Server)
    (conn : Connection) (dir t : List ℕ) (ts : List (List ℕ)) (e : Endpoint) (es' : Endpoints)
    (bs : List ℕ)
    → AreParts (dir ∷ t ∷ ts)
    → conn.m_request.m_uri ≡ spelled (dir ∷ t ∷ ts)
    → lookup v.m_endpoints (47 ∷ dir) ≡ (some e, es')
    → 0 < length e.m_folder
    → files (e.m_folder ++ spelled (t ∷ ts)) ≡ some bs
    → 0 < length bs
    → (fields : List ℕ) × (handle_request_get files run v conn
        ≡ some (ok_text conn.m_response fields bs, record v { m_endpoints = es' }))
unfolding handle_request_get
get_reads_below files run v conn dir t ts e es' bs parts uri has some_folder file some_bs =
    let path = joined (t ∷ ts) in
    let there : files (e.m_folder ++ path) ≡ some bs =
      ap (λ p. files (e.m_folder ++ p)) (joined-spelled (t ∷ ts)) ∙ file in
    let (fields, text) = file_text conn.m_response (e.m_folder ++ path) bs in
    (
      fields,
      ap
            (λ tokens.
              let (found, es) = find_folder v.m_endpoints [] tokens in
              let (folder, path) = found in get_from files run v conn folder path es)
            (ap (λ u. tokenize u 47) uri ∙ tokenize-spelled dir (t ∷ ts) parts)
          ∙ ap
              (λ (found, es).
                let (folder, path) = found in get_from files run v conn folder path es)
              (find_folder_below v.m_endpoints dir t ts e es' has some_folder)
          ∙ get_from_file files run v conn e.m_folder path es' bs some_folder there some_bs
          ∙ ap (λ l. some (l, record v { m_endpoints = es' })) text,
    )

-- A lookup of a URI that has no entry leaves one behind, with a null pointer.
abbrev pub has_key : Endpoints → List ℕ → Bool
has_key [] key = false
has_key ((k, e) ∷ rest) key = if eq_text k key then true else has_key rest key

pub lookup_grows :
    (es : Endpoints) (key : List ℕ)
    → let (found, es') = lookup es key in
      (has_key es key ≡ true → es' ≡ es)
      × (has_key es key ≡ false → (found ≡ none) × (es' ≡ es ++ (key, none) ∷ []))
unfolding lookup
lookup_grows [] key = (λ h. absurd (cc h), λ h. (refl, refl))
lookup_grows ((k, e) ∷ es) key = ground (arith, lookup_grows es key)

module _ {S : Type 0} (files : List ℕ → Option (List ℕ)) (run : ℕ → Connection → Option Connection)
    (ops : ClientOps S) (Taken : S → List ℕ → Type 0) (laws : SinkLaws ops Taken) where
  -- What is left of a response that is being sent.
  abbrev pub pending : Handler S → List ℕ
  pending h = take h.m_response_bytes_left (drop h.m_response_sent h.m_response)

  abbrev pub IsSending : Handler S → Type 0
  IsSending h =
      (0 < h.m_response_bytes_left)
      × (h.m_response_sent + h.m_response_bytes_left ≡ length h.m_response)

  -- A response leaves the handler in order: one `write_raw` of the sink moves its first bytes behind
  -- those that the sink has taken, and either the rest is still to be sent by the next `process`, or
  -- the whole response has been taken and `finish` decides what becomes of the connection.
  pub send-IsSending :
      (h : Handler S) (t : List ℕ)
      → IsSending h
      → Taken h.m_client t
      → (n : ℕ) × (s : S) × (n ≤ h.m_response_bytes_left)
        × Taken s (t ++ take n (pending h))
        × (let h' = record h {
          m_client = s;
          m_response_sent = h.m_response_sent + n;
          m_response_bytes_left = h.m_response_bytes_left - n;
        } in
            ((n < h.m_response_bytes_left)
              × (send files run ops h ≡ (true, h'))
              × IsSending h'
              × (take n (pending h) ++ pending h' ≡ pending h))
            ⊎ ((take n (pending h) ≡ pending h) × (send files run ops h ≡ finish files run ops h')))
  unfolding send written
  send-IsSending h t (some_left, whole) k =
      let q = drop h.m_response_sent h.m_response in
      let some_bytes : 0 < length (pending h) = omega (
        arith,
        length-take h.m_response_bytes_left q,
        length-drop h.m_response_sent h.m_response,
      ) in
      let fits : length (pending h) ≤ h.m_response_bytes_left =
        omega (arith, length-take h.m_response_bytes_left q) in
      let w = laws.writes h.m_client t (pending h) some_bytes k in
      let n = w.count in
      let h' = record h {
        m_client = w.after;
        m_response_sent = h.m_response_sent + n;
        m_response_bytes_left = h.m_response_bytes_left - n;
      } in
      let le : n ≤ h.m_response_bytes_left = omega (arith, w.fits, fits) in
      let ran : send files run ops h ≡ written files run ops h (some n) w.after =
        ap (λ (o, s). written files run ops h o s) w.took in
      (
        n,
        w.after,
        le,
        w.takes,
        elim (eq_cases (h.m_response_bytes_left - n) 0) [
          | inl (z, done) ↦
              inr (take_all n (pending h) (omega (arith, fits, done, le)), ran ∙ if_eq _ z refl)
          | inr (z, more) ↦ inl (
            omega (arith, more, le),
            ran ∙ if_not_eq _ z refl,
            (omega (arith, more), omega (arith, whole, le)),
            ap₂ ◌++◌ (take-take n h.m_response_bytes_left q le) (
                  ap (take (h.m_response_bytes_left - n))
                    (sym (drop-drop n h.m_response_sent h.m_response)))
                ∙ take_twice n (h.m_response_bytes_left - n) h.m_response_bytes_left q
                    (omega (arith, le)),
          )
        ],
      )
