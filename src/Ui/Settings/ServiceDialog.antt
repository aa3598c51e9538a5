-- ===== src/Ui/Settings/ServiceDialog.antt =====
-- What confirming the dialog of src/ui/servicedialog.cpp does to the service that it edits.
use webpier.Base.{String, Bool, ◌&&◌, ◌||◌, not, is_empty, if◌then◌else◌}
use webpier.Store.Types.{Service}

-- the properties of `CServiceDialog`; `boot` counts when the rendezvous is the DHT
pub record ServiceEntered : Type 0 where
  pub shown : Service
  pub is_dht : Bool
  pub boot : String

-- What `CServiceDialog::onOKButtonClick` leaves: the service, also when the dialog stays.
pub record ServiceConfirmed : Type 0 where
  pub service : Service
  pub ends : Bool

unfoldable pub confirm_service : ServiceEntered → Service → ServiceConfirmed
confirm_service e s =
    let rendezvous = if e.is_dht then e.boot else "" in
    record {
      service = record e.shown { local = s.local; rendezvous = rendezvous };
      ends = not (
          is_empty e.shown.name
          || is_empty e.shown.address
          || (not s.local && is_empty e.shown.pier)
          || (e.is_dht && is_empty rendezvous));
    }
