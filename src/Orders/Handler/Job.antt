-- ===== src/Orders/Handler/Job.antt =====
-- The worker of app/outbox/worker.py with the handler of a sale quotation: what its row says about
-- BUSY.
use mathlib.Core.Path.{subst}
use fembin.Base.{
  ◌++◌, [], ◌∷◌, ◌⊎◌, ℕ, ◌+◌, ◌≡◌, refl, sym, ap, ◌∙◌, Text, codes, text_eq, some, List, Bool,
  arith, inl, inr, Option-cases,
}
use fembin.Base.Dict.{lookup, insert}
use fembin.Base.Int.{ℤ}
use fembin.Exec.{ok, err, pure, >>=-keeps, Result-cases}
use fembin.Errors.{Exn}
use fembin.Db.{State}
use fembin.Busy.Client.{BusyClient, Headers, HttpResponse, add_voucher}
use fembin.Busy.VchNumbering.{get_next_vch_no}
use fembin.Busy.Constants.{vch_type, sale_quotation}
use fembin.Orders.Items.{QuotationRequest, build_quotation_xml}
use fembin.Orders.Verify.{verify_and_price_items_from_busy}
use fembin.Busy.Element.{XmlEntry}
use fembin.Busy.Posts.{logging, posts, voucher_headers, posts-get_next_vch_no, add_voucher_answered}
use fembin.Outbox.Models.{OutboxJob, Outbox, OutboxStatus}
use fembin.Outbox.Worker.{run_job, settle, process_next_job, next_queued, start, register_handler}
use fembin.Outbox.Process.{step-none, step-some, run_job-HasEnded}
use fembin.Orders.Queue.{job_type}
use fembin.Orders.Handler.{posted, post, prepare, handle_add_sale_quotation, handlers}
use fembin.Orders.Handler.Posts.{posts_once_after_verifying, posts-verify}

module _ {W : Type 0} (client : BusyClient W) where
  -- the request that sends a quotation under a number, and whether BUSY takes it
  abbrev pub request_of : QuotationRequest → Text → Headers
  request_of request vch_no =
      voucher_headers client (vch_type sale_quotation) (build_quotation_xml request vch_no)

  abbrev pub Takes : Headers → W → HttpResponse → Type 0
  Takes headers w response =
      ((client.http_get headers w).0 ≡ ok response)
      × (response.header (codes "Result") ≡ some (codes "T"))

  -- nothing was sent, or the quotation under some number was sent last; then the result is the code
  -- in BUSY's answer if BUSY took it, and an error if not
  post_cases :
      (w : W) (log : List Headers) (request : QuotationRequest)
      → let r = post (logging client) request (w, log) in
        (posts r.1.1 ≡ posts log)
        ⊎ ((vch_no : Text) × (v : W) × (log' : List Headers) × (r.1 ≡ (
          (client.http_get (request_of request vch_no) v).1,
          log' ++ request_of request vch_no ∷ [],
        ))
            × (((response : HttpResponse) × Takes (request_of request vch_no) v response
                  × (r.0 ≡ ok (posted response.text vch_no)))
                ⊎ ((e : Exn) × (r.0 ≡ err e)
                    × ((response : HttpResponse)
                        → ¬ Takes (request_of request vch_no) v response))))
  unfolding post
  post_cases w log request =
      let number =
        get_next_vch_no (logging client) (vch_type sale_quotation) request.vch_no_prefix in
      let kept =
        posts-get_next_vch_no client w log (vch_type sale_quotation) request.vch_no_prefix in
      elim (Result-cases (number (w, log)).0) [
        | inr (e, failed) ↦ inl (ground (arith, failed, kept))
        | inl (vch_no, got) ↦
            let t = (number (w, log)).1 in
            let (last, answered) =
              add_voucher_answered client t.0 t.1 (vch_type sale_quotation)
                (build_quotation_xml request vch_no) in
            let kept' =
              >>=-keeps
                (add_voucher (logging client) (vch_type sale_quotation)
                  (build_quotation_xml request vch_no))
                (λ vch_code. pure (posted vch_code vch_no)) t (λ a u. refl) in
            inr (
              vch_no,
              t.0,
              t.1,
              ground (arith, got, last, kept'),
              elim answered [
                | inl (response, got', is_t, returned) ↦
                    inl (response, (got', is_t), ground (arith, got, returned))
                | inr (e, failed, refused) ↦
                    inr (e, ground (arith, got, failed), λ response h. refused response h.0 h.1)
              ],
            )
      ]

module _ {W : Type 0} (repr : XmlEntry → Text) (accepts : ℤ → Bool) (client : BusyClient W) where
  -- The one voucher that was sent for a job between two states: the job's quotation as it was
  -- refreshed and verified, in the last request of all.
  pub record Sent (job : OutboxJob) (before after : State (W × List Headers)) : Type 0 where
    pub asked : QuotationRequest
    pub verified : QuotationRequest
    pub is_asked : (prepare job.payload before).0 ≡ ok asked
    pub is_verified :
        (verify_and_price_items_from_busy repr accepts (logging client) asked before).0
        ≡ ok verified
    pub vch_no : Text
    pub world : W
    pub log : List Headers
    pub is_last : after.net ≡ (
      (client.http_get (request_of client verified vch_no) world).1,
      log ++ request_of client verified vch_no ∷ [],
    )
    pub is_only : posts after.net.1 ≡ posts before.net.1 + 1

  -- what a job's row says, and what was sent between two states
  pub data Told (job : OutboxJob) (before after : State (W × List Headers)) : Type 0 where
    answered :
        (v : Sent job before after) (response : HttpResponse)
        → Takes client (request_of client v.verified v.vch_no) v.world response
        → job.status ≡ OutboxStatus.done
        → job.result ≡ some (posted response.text v.vch_no)
        → Told job before after
    refused :
        (v : Sent job before after)
        → ((response : HttpResponse)
            → ¬ Takes client (request_of client v.verified v.vch_no) v.world response)
        → job.status ≡ OutboxStatus.failed
        → Told job before after
    not_sent :
        posts after.net.1 ≡ posts before.net.1
        → job.status ≡ OutboxStatus.failed
        → Told job before after

  lookup-handlers :
      lookup job_type (handlers repr accepts (logging client))
      ≡ some (handle_add_sale_quotation repr accepts (logging client))
  unfolding handlers register_handler lookup insert text_eq codes
  lookup-handlers = refl

  module _ (type_name str_of : Exn → Text) where
    run_job-Told :
        (job : OutboxJob) (s : State (W × List Headers))
        → let r =
            run_job type_name str_of
              (some (handle_add_sale_quotation repr accepts (logging client)))
              job
              s in
          Told r.0 s r.1
    unfolding run_job settle
    run_job-Told job s =
        let handle = handle_add_sale_quotation repr accepts (logging client) job.payload in
        elim (posts_once_after_verifying repr accepts client job.payload s) [
          | inl (same, e, failed) ↦ not_sent same (ground (arith, failed))
          | inr (grown, asked, verified, read, passed, all, same) ↦
              let u = (verify_and_price_items_from_busy repr accepts (logging client) asked s).1 in
              let kept = posts-verify repr accepts client asked s in
              elim (post_cases client u.net.0 u.net.1 verified) [
                | inl none_sent ↦ absurd (ground (arith, grown, same, kept, none_sent))
                | inr (vch_no, world, log, last, outcome) ↦
                    let v : (job' : OutboxJob)
                        → job'.payload ≡ job.payload
                        → Sent job' s (handle s).1 =
                      λ job' payload. record {
                        asked = asked;
                        verified = verified;
                        is_asked = rw payload read;
                        is_verified = passed;
                        vch_no = vch_no;
                        world = world;
                        log = log;
                        is_last = ground (arith, same, last);
                        is_only = grown;
                      } in
                    elim outcome [
                      | inl (response, takes, returned) ↦
                          let ended : (handle s).0 ≡ ok (posted response.text vch_no) =
                            ground (arith, same, returned) in
                          answered (v _ (ground (arith, ended))) response takes
                            (ground (arith, ended)) (ground (arith, ended))
                      | inr (e, failed, refuses) ↦
                          let ended : (handle s).0 ≡ err e = ground (arith, same, failed) in
                          refused (v _ (ground (arith, ended))) refuses (ground (arith, ended))
                    ]
              ]
        ]

    -- Where the worker processes the job of a sale quotation, the job's row tells what was sent. It
    -- is done exactly if one voucher was sent, the quotation as it was refreshed and verified, and
    -- BUSY answered that request with "T"; the row's result is then the code that BUSY answered and
    -- the number it was sent under. It is failed if none was sent, or if that one request raised or
    -- was not answered with "T". No second one is ever sent.
    pub process_next_job-Told :
        (locked : ℕ → Bool) (t : Outbox) (s : State (W × List Headers)) (job : OutboxJob)
        → job.job_type ≡ job_type
        → let r =
            process_next_job type_name str_of locked
              (handlers repr accepts (logging client))
              (t, s) in
          r.0 ≡ some job → Told job s r.1.1
    process_next_job-Told locked t s job kind h =
        let hs = handlers repr accepts (logging client) in
        elim (Option-cases (next_queued locked t.jobs)) [
          | inl e ↦ absurd (ground (arith, step-none type_name str_of locked hs t s e, h))
          | inr (old, e) ↦
              let stepped = step-some type_name str_of locked hs t s old e in
              let r = run_job type_name str_of (lookup old.job_type hs) (start old) s in
              let same : r.0 ≡ job = ground (arith, stepped, h) in
              let typed = run_job-HasEnded type_name str_of (lookup old.job_type hs) old s in
              let found : some (handle_add_sale_quotation repr accepts (logging client))
                  ≡ lookup old.job_type hs =
                sym (
                  ap (λ k. lookup k hs) (sym typed.same_type ∙ ap (λ j. j.job_type) same ∙ kind)
                  ∙ lookup-handlers) in
              rw stepped (
                subst (λ j. Told j s r.1) same
                  (subst (λ o. let r = run_job type_name str_of o (start old) s in Told r.0 s r.1)
                    found (run_job-Told (start old) s)))
        ]
