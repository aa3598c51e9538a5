-- ===== src/Ui/Tests.antt =====
-- The theorem about offers at an offer of one service.
pub mod Offers
pub mod Probes
pub mod Starts
pub mod Menus
pub mod Buttons
pub mod Forms
pub mod Clicks
pub mod Dialogs
use webpier.Base.{
  pos, String, ◌==◌, Bool, true, Option, none, some, List, [], ◌∷◌, ◌≡◌, refl, ok, map,
  if◌then◌else◌,
}
use webpier.Ptree.Sample.{sample, of_int, to_int?}
use webpier.Store.Types.{Service, Enums}
use webpier.Backend.Tests.{web}
use webpier.Ui.Offer.{read_offer, write_offer, with_versions, is_ip6}
use webpier.Ui.Services.{Form, form_of}
use webpier.Ui.Offer.Exchange.{imported, read_offer-write_offer}

abbrev enumerators : Enums
enumerators = record {
  info = pos 2;
  strict = pos 1;
  any = pos 0;
  udp = pos 1;
  either = pos 0;
  server = pos 2;
  client = pos 1;
  direct = pos 0;
  of_checkup = of_int;
  to_checkup? = to_int?;
  to_severity? = to_int?;
}

-- the one gateway of version 6 that is used
abbrev resolves : String → Option Bool
resolves gateway = if gateway == "[fe80::1]:0" then some true else none

abbrev form : Form
form = form_of (record web { gateway = "[fe80::1]:0"; role = pos 2 })

read_offer-write_offer_example :
    let versions = with_versions (is_ip6 enumerators resolves resolves) (form ∷ []) in
    ((ss : List (Bool × Service))
      → versions ≡ some ss
      → (doc : sample.Tree) × (write_offer sample enumerators resolves resolves "mars/amy"
            "-----BEGIN-----"
            (form ∷ [])
          ≡ some doc)
        × (read_offer sample enumerators doc
            ≡ ok (record {
              pier = "mars/amy";
              certificate = "-----BEGIN-----";
              services = map (imported sample enumerators "mars/amy") ss;
            })))
    × (versions ≡ none
        → write_offer sample enumerators resolves resolves "mars/amy" "-----BEGIN-----" (form ∷ [])
          ≡ none)
read_offer-write_offer_example =
    read_offer-write_offer sample enumerators resolves resolves "mars/amy" "-----BEGIN-----"
      (form ∷ []) ((refl, refl, refl), tt)

-- the offer is one that is written
resolved :
    with_versions (is_ip6 enumerators resolves resolves) (form ∷ [])
    ≡ some ((true, form.shown) ∷ [])
unfolding with_versions is_ip6
resolved = refl
