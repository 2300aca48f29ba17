-- ===== src/Shared/Metrics/Errors.antt =====
-- shared/src/metrics.rs: the details of errors, in the list of all of them and with their connections.
use npt.Prelude.{
  ℕ, ◌≡◌, refl, sym, ◌∙◌, List, [], ◌∷◌, ◌++◌, Option, none, some, length, arith, length-append,
  Bool-cases, inl, inr,
}
use npt.Prelude.Words.{add64}
use npt.Prelude.Table.{
  Table, has_key, sum_values, sum_values-modify, sum_values-modify_same, sum_values-insert,
  lookup-has_key,
}
use npt.Shared.Protocol.{ErrorType, ErrorDetail}
use npt.Shared.Metrics.{
  ConnectionMetrics, MetricsCollector, ErrorSample, new, values, fresh_connection, start_connection,
  start_connection_with_activity, end_connection, record_bytes_sent, record_bytes_received,
  record_packet_sent, record_packet_received, record_error, record_error_with_detail,
  record_latency,
}
use npt.Shared.Metrics.Sampling.{all_details, sample_errors, get_latest_errors, last}
use npt.Shared.Metrics.Connections.{
  Event, sent, received, packet_sent, packet_received, failed, failed_with, took, Op, start,
  start_with, note, finish, note_event, apply, run, IsFresh, AllFresh,
}

abbrev details : ConnectionMetrics → ℕ
details c = length c.error_details

module _ {F : Type 0} where
  -- The details in the list of all of them, against those of the connections.
  abbrev pub IsLogged : MetricsCollector F → Type 0
  IsLogged m = length m.error_details ≡ sum_values (λ c. length c.error_details) m.connections

  detail-IsLogged :
      (now id : ℕ) (t : ErrorType) (message : List ℕ) (context : Option (List ℕ))
      (m : MetricsCollector F)
      → IsLogged m
      → IsLogged (record_error_with_detail now id t message context m)
  unfolding record_error_with_detail
  detail-IsLogged now id t message context m v = elim (Bool-cases (has_key id m.connections)) [
    | inr absent ↦ rw absent v
    | inl present ↦
        let (c, e) = lookup-has_key id m.connections present in
        rw present (
          omega (
            arith,
            length-append m.error_details (detail ∷ []),
            length-append c.error_details (detail ∷ []),
            sum_values-modify details id
                (λ c. record c {
                  errors = add64 c.errors 1;
                  error_details = c.error_details ++ detail ∷ [];
                })
                m.connections e,
          ))
  ]
    where
      detail : ErrorDetail
      detail = record {
        error_type = t;
        message = message;
        timestamp = now;
        connection_id = id;
        context = context;
      }

  note-IsLogged :
      (id : ℕ) (e : Event) (m : MetricsCollector F) → IsLogged m → IsLogged (note_event id e m)
  unfolding record_bytes_sent record_bytes_received record_packet_sent record_packet_received
      record_error record_latency
  note-IsLogged id (sent n) m v =
      v ∙ sym (sum_values-modify_same details id _ m.connections (λ c. refl))
  note-IsLogged id (received n) m v =
      v ∙ sym (sum_values-modify_same details id _ m.connections (λ c. refl))
  note-IsLogged id packet_sent m v =
      v ∙ sym (sum_values-modify_same details id _ m.connections (λ c. refl))
  note-IsLogged id packet_received m v =
      v ∙ sym (sum_values-modify_same details id _ m.connections (λ c. refl))
  note-IsLogged id failed m v =
      v ∙ sym (sum_values-modify_same details id _ m.connections (λ c. refl))
  note-IsLogged id (failed_with now t message context) m v =
      detail-IsLogged now id t message context m v
  note-IsLogged id (took n) m v =
      v ∙ sym (sum_values-modify_same details id _ m.connections (λ c. refl))

  apply-IsLogged :
      (o : Op) (m : MetricsCollector F) → IsFresh o m → IsLogged m → IsLogged (apply o m)
  unfolding start_connection start_connection_with_activity end_connection
  apply-IsLogged (start now place id t) m h v =
      omega
        (arith, sum_values-insert details place id (fresh_connection now id t none) m.connections h)
  apply-IsLogged (start_with now place id t a) m h v = omega (
    arith,
    sum_values-insert details place id (fresh_connection now id t (some a)) m.connections h,
  )
  apply-IsLogged (note id e) m h v = note-IsLogged id e m v
  apply-IsLogged (finish now id) m h v =
      v ∙ sym (sum_values-modify_same details id _ m.connections (λ c. refl))

  run-IsLogged :
      (os : List Op) (m : MetricsCollector F) → AllFresh os m → IsLogged m → IsLogged (run os m)
  run-IsLogged [] m h v = v
  run-IsLogged (o ∷ os) m h v = run-IsLogged os (apply o m) h.1 (apply-IsLogged o m h.0 v)

last-append {ℓ} : {A : Type ℓ} (l : List A) (x : A) → last (l ++ x ∷ []) ≡ some x
last-append [] x = refl
last-append (y ∷ []) x = refl
last-append (y ∷ z ∷ l) x = last-append (z ∷ l) x

length-all_details :
    (m : Table ConnectionMetrics) → length (all_details (values m)) ≡ sum_values details m
length-all_details [] = refl
length-all_details ((k, c) ∷ m) =
    omega (arith, length-append c.error_details (all_details (values m)), length-all_details m)

-- From a new collector, after any operations in which every connection is started with an identifier
-- that is not in use, the list of all error details is as long as those of the connections together:
-- no detail is lost, kept twice, or kept for a connection that is unknown. An error sample that is
-- then taken holds as many details.
pub errors_logged :
    (F : Type 0) (now timestamp : ℕ) (os : List Op)
    → AllFresh os (new F now)
    → let m = run os (new F now) in
      (length m.error_details ≡ sum_values (λ c. length c.error_details) m.connections)
      × (s : ErrorSample) × (get_latest_errors (sample_errors timestamp m) ≡ some s)
      × (length s.error_details ≡ length m.error_details)
unfolding sample_errors get_latest_errors
errors_logged F now timestamp os h =
    let m = run os (new F now) in
    let v = run-IsLogged os (new F now) h (start_logged now) in
    (v, _, last-append m.error_history _, length-all_details m.connections ∙ sym v)
  where
    start_logged : (now : ℕ) → IsLogged (new F now)
    start_logged now = unfold new in refl
