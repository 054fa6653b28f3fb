-- ===== src/Server/Api/Devices.antt =====
-- internal/server/api_admin.go: the calls on devices.
use router_billing.Prelude.{none, List, [], ◌++◌, Text, length, leb}
use router_billing.Prelude.Digits.{itoa}
use router_billing.Prelude.Texts.{codes, trim_space}
use router_billing.Models.TypedText.{normalize_mac}
use router_billing.Db.{Result, ok, err}
use router_billing.Db.Macs.{get_mac, set_mac_label, set_mac_notes, expire_due_macs}
use router_billing.Firewall.{Nft}
use router_billing.Service.{extend, delete, resync}
use router_billing.Server.Web.{
  Request, Body, Host, json, Step, ◌>>=◌, ◌>>◌, go, leave, need, need_some, need_ok, ask, ask_two,
  serve, reply,
}
use router_billing.Server.Api.{bad_request, failed, done, capped, positive, default, log_as}

-- The calls on one device.
pub data DeviceCall : Type 0 where
  grants revokes relabels annotates : DeviceCall

module _ (n : Nft) (h : Host) (r : Request) (actor : Text) where
  abbrev ApiStep : Type 0 → Type 0
  ApiStep = Step n.State

  -- `handleAPIMACGrant`, on a body that could be decoded.
  unfoldable pub api_mac_grant : Body → ApiStep (Unit {0})
  api_mac_grant b = do
    mac ← need_some (normalize_mac (b.text (codes "mac"))) (bad_request (codes "invalid mac"))
    days ←
        need_some (positive (b.number (codes "days")))
          (bad_request (codes "days must be in 1..3650"))
    need (leb days 3650) (bad_request (codes "days must be in 1..3650"))
    m ← serve h λ w reread.
        extend n w reread mac (default (trim_space (b.text (codes "label"))) actor) days none h.now
    _ ← need_ok m failed
    log_as h r actor (codes "grant") mac (codes "days=" ++ (itoa days ++ codes " ")) []
    reply done

  -- `handleAPIMACRevoke`
  unfoldable pub api_mac_revoke : Body → ApiStep (Unit {0})
  api_mac_revoke b = do
    mac ← need_some (normalize_mac (b.text (codes "mac"))) (bad_request (codes "invalid mac"))
    gone ← serve h λ w _. delete n w mac
    _ ← need_ok gone failed
    log_as h r actor (codes "revoke") mac [] []
    reply done

  unfoldable pub known_mac : Text → ApiStep (Unit {0})
  known_mac mac = do
    got ← ask h λ w. get_mac w mac
    m ← need_ok got failed
    _ ← need_some m (json 404 (codes "mac not found"))
    go tt

  -- `handleAPIMACLabel`, for a device that is known.
  unfoldable pub store_label : Text → Text → ApiStep (Unit {0})
  store_label mac label = do
    set ← ask h λ w. set_mac_label w mac label h.now
    _ ← need_ok set failed
    log_as h r actor (codes "mac_label") mac (codes "label=" ++ (label ++ codes " ")) []
    reply done

  unfoldable pub api_mac_label : Body → ApiStep (Unit {0})
  unfolding known_mac store_label
  api_mac_label b = do
    mac ← need_some (normalize_mac (b.text (codes "mac"))) (bad_request (codes "invalid mac"))
    known_mac mac
    store_label mac (capped 64 (trim_space (b.text (codes "label"))))

  -- `handleAPIMACNotes`, for a device that is known.
  unfoldable pub store_notes : Text → Text → ApiStep (Unit {0})
  store_notes mac written = do
    set ← ask h λ w. set_mac_notes w mac written h.now
    _ ← need_ok set failed
    log_as h r actor (codes "mac_notes") mac (codes "len=" ++ (itoa (length written) ++ codes " "))
        []
    reply done

  unfoldable pub api_mac_notes : Body → ApiStep (Unit {0})
  unfolding known_mac store_notes
  api_mac_notes b = do
    mac ← need_some (normalize_mac (b.text (codes "mac"))) (bad_request (codes "invalid mac"))
    known_mac mac
    store_notes mac (capped 1000 (trim_space (b.text (codes "notes"))))

  unfoldable pub device_call : DeviceCall → Body → ApiStep (Unit {0})
  unfolding api_mac_grant api_mac_revoke api_mac_label api_mac_notes
  device_call grants = api_mac_grant
  device_call revokes = api_mac_revoke
  device_call relabels = api_mac_label
  device_call annotates = api_mac_notes

  abbrev swept : Result (List Text) → ApiStep (Unit {0})
  swept (err e) = do
    log_as h r actor (codes "expire_now_failed") [] (codes "err= ") []
    leave failed
  swept (ok macs) = do
    _ ← serve h λ w _. resync n w h.now
    log_as h r actor (codes "expire_now") [] (codes "expired=" ++ (itoa (length macs) ++ codes " "))
        []
    reply done

  -- `handleAPIExpireNow`; the text of an error is left out of the audit row.
  unfoldable pub api_expire_now : ApiStep (Unit {0})
  api_expire_now = do
    macs ← ask_two h λ selects updates. expire_due_macs selects updates h.now
    swept macs
