-- ===== src/Busy/Posts.antt =====
-- The vouchers that a run inserts in BUSY, counted on a client that keeps a log of its requests.
use fembin.Base.{
  ℕ, ◌+◌, ◌≡◌, refl, Text, codes, text_eq, none, some, List, [], ◌∷◌, ◌++◌, Bool, false,
  if◌then◌else◌, arith, inl, inr, ◌⊎◌, ◌≢◌, Option-cases, Bool-cases, text_eq_iff,
}
use fembin.Base.Int.{ℤ}
use fembin.Base.Dict.{lookup}
use fembin.Exec.{ok, err, pure, lift, >>=-keeps, ◌>>=◌, Result-cases}
use fembin.Errors.{Exn, busy_error}
use fembin.Strings.{print_ℕ, print_ℤ}
use fembin.Busy.Client.{
  BusyClient, Headers, HttpResponse, call, answer, run_query, get_master_xml, add_voucher,
}
use fembin.Busy.VchNumbering.{get_next_vch_no, next_vch_no, vch_no_sql}
use fembin.Busy.Rowset.{parse_rowset_xml}
use fembin.Busy.Constants.{vch_type}

-- the log grows by the headers of every request that is made
abbrev pub logging : {W : Type 0} → BusyClient W → BusyClient (W × List Headers)
logging client = record {
  username = client.username;
  password = client.password;
  http_get = λ headers s. let (r, w) = client.http_get headers s.0 in (r, (w, s.1 ++ headers ∷ []));
}

-- a request with service code 2 inserts a voucher
unfoldable pub is_post : Headers → Bool
unfolding lookup text_eq codes
is_post headers = elim (lookup (codes "SC") headers) [
  | none ↦ false
  | some sc ↦ text_eq sc (codes "2")
]

abbrev pub posts : List Headers → ℕ
posts [] = 0
posts (h ∷ hs) = (if is_post h then 1 else 0) + posts hs

-- the request that inserts a voucher
abbrev pub voucher_headers : {W : Type 0} → BusyClient W → ℕ → Text → Headers
voucher_headers client vch_type xml =
    (codes "UserName", client.username)
    ∷ (codes "Pwd", client.password)
    ∷ (codes "SC", print_ℕ 2)
    ∷ (codes "VchType", print_ℕ vch_type)
    ∷ (codes "VchXml", xml)
    ∷ []

posts-append :
    (hs : List Headers) (h : Headers)
    → posts (hs ++ h ∷ []) ≡ posts hs + (if is_post h then 1 else 0)
posts-append [] h = omega arith
posts-append (x ∷ hs) h = omega (arith, posts-append hs h)

module _ {W : Type 0} (client : BusyClient W) (w : W) (log : List Headers) where
  abbrev sent : Headers → Headers
  sent extra = (codes "UserName", client.username) ∷ (codes "Pwd", client.password) ∷ extra

  call_logs :
      (extra : Headers) → (call (logging client) extra (w, log)).1.1 ≡ log ++ sent extra ∷ []
  unfolding call
  call_logs extra = elim (Result-cases (client.http_get (sent extra) w).0) [
    | inl (a, e) ↦ ground (arith, e)
    | inr (a, e) ↦ ground (arith, e)
  ]

  answer_keeps :
      (extra : Headers) (op : Text)
      → ((call (logging client) extra >>= answer op) (w, log)).1
        ≡ (call (logging client) extra (w, log)).1
  unfolding answer
  answer_keeps extra op = elim (Result-cases (call (logging client) extra (w, log)).0) [
    | inl (a, e) ↦ ground (arith, e)
    | inr (a, e) ↦ ground (arith, e)
  ]

  posts-call :
      (extra : Headers) (op : Text)
      → posts ((call (logging client) extra >>= answer op) (w, log)).1.1
        ≡ posts log + (if is_post (sent extra) then 1 else 0)
  posts-call extra op = rw (answer_keeps extra op, call_logs extra) (posts-append log (sent extra))

  pub posts-run_query :
      (sql : Text) → posts (run_query (logging client) sql (w, log)).1.1 ≡ posts log
  unfolding run_query is_post print_ℕ
  posts-run_query sql =
      ground (arith, posts-call ((codes "SC", print_ℕ 1) ∷ (codes "Qry", sql) ∷ []) (codes "Query"))

  pub posts-get_master_xml :
      (code : ℤ) → posts (get_master_xml (logging client) code (w, log)).1.1 ≡ posts log
  unfolding get_master_xml is_post print_ℕ
  posts-get_master_xml code = ground (
    arith,
    posts-call ((codes "SC", print_ℕ 9) ∷ (codes "MasterCode", print_ℤ code) ∷ [])
        (codes "GetMasterXML"),
  )

  pub posts-add_voucher :
      (vch_type : ℕ) (xml : Text)
      → posts (add_voucher (logging client) vch_type xml (w, log)).1.1 ≡ posts log + 1
  unfolding add_voucher is_post print_ℕ
  posts-add_voucher vch_type xml = ground (
    arith,
    posts-call
        ((codes "SC", print_ℕ 2) ∷ (codes "VchType", print_ℕ vch_type) ∷ (codes "VchXml", xml) ∷ [])
        (codes "AddVoucher"),
  )

  pub posts-get_next_vch_no :
      (vch_type : ℕ) (prefix : Text)
      → posts (get_next_vch_no (logging client) vch_type prefix (w, log)).1.1 ≡ posts log
  unfolding get_next_vch_no
  posts-get_next_vch_no vch_type prefix =
      rw
        (>>=-keeps (run_query (logging client) (vch_no_sql vch_type prefix))
          (λ xml. lift (parse_rowset_xml xml) >>= λ rows. pure (next_vch_no prefix rows)) (w, log)
          (λ xml t.
            >>=-keeps (lift (parse_rowset_xml xml)) (λ rows. pure (next_vch_no prefix rows)) t
              (λ rows u. refl)))
        (posts-run_query (vch_no_sql vch_type prefix))

  -- it is the last request, and returns a code exactly where BUSY answered it with "T"
  pub add_voucher_answered :
      (vch_type : ℕ) (xml : Text)
      → let headers = voucher_headers client vch_type xml in
        let r = add_voucher (logging client) vch_type xml (w, log) in
        (r.1 ≡ ((client.http_get headers w).1, log ++ headers ∷ []))
        × (((response : HttpResponse) × ((client.http_get headers w).0 ≡ ok response)
              × (response.header (codes "Result") ≡ some (codes "T"))
              × (r.0 ≡ ok response.text))
            ⊎ ((e : Exn) × (r.0 ≡ err e)
                × ((response : HttpResponse)
                    → (client.http_get headers w).0 ≡ ok response
                    → response.header (codes "Result") ≢ some (codes "T"))))
  unfolding add_voucher call answer
  add_voucher_answered vch_type xml =
      elim (Result-cases (client.http_get (voucher_headers client vch_type xml) w).0) [
        | inr (e, failed) ↦ (
          ground (arith, failed),
          inr (e, ground (arith, failed), λ r h. ground (arith, failed, h)),
        )
        | inl (response, got) ↦ elim (Option-cases (response.header (codes "Result"))) [
          | inl e ↦ (
            ground (arith, got, e),
            inr (
              busy_error (codes "AddVoucher") (record {
                status_code = response.status_code;
                result = response.header (codes "Result");
                description = response.header (codes "Description");
                body = response.text;
              }),
              ground (arith, got, e),
              λ r h k. ground (arith, got, e, h, k),
            ),
          )
          | inr (result, e) ↦ elim (Bool-cases (text_eq result (codes "T"))) [
            | inl is_t ↦ (
              ground (arith, got, e, is_t),
              inl (
                response,
                got,
                ground (arith, e, is_t, text_eq_iff result (codes "T")),
                ground (arith, got, e, is_t),
              ),
            )
            | inr other ↦ (
              ground (arith, got, e, other),
              inr (
                busy_error (codes "AddVoucher") (record {
                  status_code = response.status_code;
                  result = response.header (codes "Result");
                  description = response.header (codes "Description");
                  body = response.text;
                }),
                ground (arith, got, e, other),
                λ r h k. ground (arith, got, e, other, h, k, text_eq_iff result (codes "T")),
              ),
            )
          ]
        ]
      ]
