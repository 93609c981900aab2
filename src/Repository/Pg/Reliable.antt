-- ===== src/Repository/Pg/Reliable.antt =====
-- internal/repository/pg_notification_repo.go while every statement works.
use event_driven_arch.Common.{String, ◌≡◌, [], some, none, ok, arith}
use event_driven_arch.Domain.Entities.{Time, Status, sent, Notification}
use event_driven_arch.Repository.Contract.Reliable.{IsReliable}
use event_driven_arch.Repository.{to_micros}
use event_driven_arch.Repository.Pg.{get_by_id, update, update_status, mark_sent}
use event_driven_arch.Repository.Pg.Implements.{pg_repository}
use event_driven_arch.Repository.Pg.Refines.{pg_contract}
use event_driven_arch.Repository.Pg.Rows.{view}
use event_driven_arch.Repository.Pg.Statements.{Pg, Server, send, meet}

update-works :
    (id : String) (f : Notification → Notification) (p : Pg)
    → p.fates ≡ []
    → let (result, p') = update id f p in (result ≡ ok tt) × (p'.fates ≡ [])
unfolding update send meet
update-works id f p calm = ground arith

pub get_by_id-works :
    (id : String) (n : Notification) (p : Pg)
    → p.fates ≡ []
    → view p id ≡ some n
    → let (result, p') = get_by_id id p in (result ≡ ok n) × (p'.fates ≡ [])
unfolding get_by_id send meet
get_by_id-works id n p calm at = ground arith

pub update_status-works :
    (id : String) (status : Status) (p : Pg)
    → p.fates ≡ []
    → let (result, p') = update_status id status p in (result ≡ ok tt) × (p'.fates ≡ [])
unfolding update_status
update_status-works id status p calm = update-works id (λ n. record n { status = status }) p calm

pub mark_sent-works :
    (id msg_id : String) (at : Time) (p : Pg)
    → p.fates ≡ []
    → let (result, p') = mark_sent id msg_id at p in (result ≡ ok tt) × (p'.fates ≡ [])
unfolding mark_sent
mark_sent-works id msg_id at p calm =
    update-works id
      (λ n. record n {
        status = sent;
        provider_msg_id = some msg_id;
        sent_at = some (to_micros at);
        error_message = none;
      })
      p calm

abbrev pub pg_reliable : (server : Server) → IsReliable (pg_repository server) (pg_contract server)
pg_reliable server = record {
  IsCalm = λ p. p.fates ≡ [];
  gets = get_by_id-works;
  updates_status = update_status-works;
  marks_sent = mark_sent-works;
}
