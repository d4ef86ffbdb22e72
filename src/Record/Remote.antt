-- ===== src/Record/Remote.antt =====
-- Calls of a DNS platform through the interface `dns.Provider`: each is recorded in the state with
-- what the platform answered, and no rollback takes it back.
use tu_dns.Prelude.{[], ◌∷◌, ◌++◌}
use tu_dns.Text.{Text}
use tu_dns.Result.{Error, Result, ok, err}
use tu_dns.Dns.{Provider, Zone, RecordInput, RemoteRecord}
use tu_dns.World.{World, Action, Call, create_call, update_call, delete_call, tick}
use tu_dns.World.On.{On, On-result}

abbrev pub called : Call → World → World
called c w = record (tick w) { calls = w.calls ++ c ∷ [] }

unfoldable pub create_remote : Provider → Zone → RecordInput → Action RemoteRecord
create_remote p zone i w =
    let r = p.create_record w.moment zone i in (r, called (create_call zone i r) w)

unfoldable pub update_remote : Provider → Zone → Text → RecordInput → Action RemoteRecord
update_remote p zone id i w =
    let r = p.update_record w.moment zone id i in (r, called (update_call zone id i r) w)

unfoldable pub delete_remote : Provider → Zone → Text → Action (Unit {0})
delete_remote p zone id w =
    let r = p.delete_record w.moment zone id in (r, called (delete_call zone id r) w)

module _ {P : RemoteRecord → World → Type 0} {Q : Error → World → Type 0} where
  pub On-create_remote :
      (p : Provider) (zone : Zone) (i : RecordInput) (w : World)
      → ((r : RemoteRecord) → P r (called (create_call zone i (ok r)) w))
      → ((e : Error) → Q e (called (create_call zone i (err e)) w))
      → On P Q (create_remote p zone i w)
  unfolding create_remote
  On-create_remote p zone i w done failed = go (p.create_record w.moment zone i)
    where
      go : (r : Result RemoteRecord) → On P Q (r, called (create_call zone i r) w)
      go r = On-result r _ (λ a e. rw e (done a)) (λ a e. rw e (failed a))

  pub On-update_remote :
      (p : Provider) (zone : Zone) (id : Text) (i : RecordInput) (w : World)
      → ((r : RemoteRecord) → P r (called (update_call zone id i (ok r)) w))
      → ((e : Error) → Q e (called (update_call zone id i (err e)) w))
      → On P Q (update_remote p zone id i w)
  unfolding update_remote
  On-update_remote p zone id i w done failed = go (p.update_record w.moment zone id i)
    where
      go : (r : Result RemoteRecord) → On P Q (r, called (update_call zone id i r) w)
      go r = On-result r _ (λ a e. rw e (done a)) (λ a e. rw e (failed a))

module _ {P : Unit {0} → World → Type 0} {Q : Error → World → Type 0} where
  pub On-delete_remote :
      (p : Provider) (zone : Zone) (id : Text) (w : World)
      → P tt (called (delete_call zone id (ok tt)) w)
      → ((e : Error) → Q e (called (delete_call zone id (err e)) w))
      → On P Q (delete_remote p zone id w)
  unfolding delete_remote
  On-delete_remote p zone id w done failed = go (p.delete_record w.moment zone id)
    where
      go : (r : Result (Unit {0})) → On P Q (r, called (delete_call zone id r) w)
      go r = On-result r _ (λ a e. rw e done) (λ a e. rw e (failed a))
