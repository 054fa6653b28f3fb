-- ===== src/Server/Api/Synced.antt =====
-- The calls on devices keep the firewall's set and the table of devices together.
use router_billing.Prelude.{
  ◌+◌, ◌≡◌, refl, sym, ap, subst, ◌∙◌, Bool, true, false, not, ◌&&◌, none, List, ◌++◌, Text, arith,
  inl, inr, Bool-cases, Option-cases,
}
use router_billing.Prelude.Table.{get-update_where, has_key}
use router_billing.Prelude.Texts.{codes, trim_space}
use router_billing.Models.{Time, Mac, is_active}
use router_billing.Models.TypedText.{normalize_mac}
use router_billing.Db.{Db, Result-cases}
use router_billing.Db.Macs.{mac_key, find_mac, get_mac, update_mac, set_mac_label, set_mac_notes}
use router_billing.Db.Invariant.Runs.{step-IsValid}
use router_billing.Db.Calls.{sets_label, sets_notes, step}
use router_billing.Db.Invariant.{IsValid}
use router_billing.Firewall.{Nft, IsNft}
use router_billing.Service.{Router, extend, delete}
use router_billing.Service.Synced.{IsSynced, is_allowed}
use router_billing.Service.Keeps.{extend-IsSynced, delete-IsSynced}
use router_billing.Server.Web.{
  Request, Body, Host, Step, Exchange, Outcome, is_get, is_post, replied, ◌>>◌, Outcome-cases,
  bind-goes, bind-replied,
}
use router_billing.Server.Api.{positive, default, done, capped, ApiToken, token_label, match_bearer}
use router_billing.Server.Api.Routes.{on_device, gated, api_call, serve_api}
use router_billing.Server.Api.Scoped.{match_bearer-router}
use router_billing.Server.Api.Devices.{
  api_mac_grant, api_mac_revoke, api_mac_label, api_mac_notes, known_mac, store_label, store_notes,
  DeviceCall, grants, revokes, relabels, annotates, device_call,
}

-- A call of the database that leaves the devices that are allowed.
db-IsSynced :
    (n : Nft) (r : Router n.State) (d : Db)
    → IsSynced n r
    → IsValid d
    → ((k : Text) → is_allowed k d ≡ is_allowed k r.db)
    → IsSynced n (record r { db = d })
db-IsSynced n r d y v rows = record { valid = v; same = λ k. rw (rows k) (y.same k) }

same-allowed :
    (mac k : Text) (f : Mac → Mac) (d : Db)
    → ((m : Mac) → (f m).mac ≡ m.mac)
    → ((m : Mac) → is_active (f m).status ≡ is_active m.status)
    → is_allowed k (update_mac mac f d) ≡ is_allowed k d
same-allowed mac k f d named active = elim (Option-cases (find_mac k d)) [
  | inl missing ↦ ground (arith, get-update_where mac_key k (has_key mac_key mac) f d.macs named)
  | inr (m, found) ↦
      ground (arith, get-update_where mac_key k (has_key mac_key mac) f d.macs named, active m)
]

label-IsSynced :
    (n : Nft) (works : Bool) (mac label : Text) (now : Time) (r : Router n.State)
    → IsSynced n r
    → IsSynced n (record r { db = (set_mac_label works mac label now r.db).1 })
unfolding set_mac_label step
label-IsSynced n false mac label now r y = y
label-IsSynced n true mac label now r y =
    db-IsSynced n r _ y (step-IsValid (sets_label true mac label now) r.db y.valid) (λ k.
      same-allowed mac k (λ m. record m { label = label; updated_at = now }) r.db (λ m. refl)
        (λ m. refl))

notes-IsSynced :
    (n : Nft) (works : Bool) (mac written : Text) (now : Time) (r : Router n.State)
    → IsSynced n r
    → IsSynced n (record r { db = (set_mac_notes works mac written now r.db).1 })
unfolding set_mac_notes step
notes-IsSynced n false mac written now r y = y
notes-IsSynced n true mac written now r y =
    db-IsSynced n r _ y (step-IsValid (sets_notes true mac written now) r.db y.valid) (λ k.
      same-allowed mac k (λ m. record m { notes = written; updated_at = now }) r.db (λ m. refl)
        (λ m. refl))

module _ (n : Nft) (laws : IsNft n) (h : Host) (r : Request) (actor : Text) where
  grant-IsSynced :
      (b : Body) (x : Exchange n.State)
      → IsSynced n x.app.router
      → (api_mac_grant n h r actor b x).0 ≡ replied done
      → IsSynced n (api_mac_grant n h r actor b x).1.app.router
  unfolding api_mac_grant
  grant-IsSynced b x y e = elim (Option-cases (normalize_mac (b.text (codes "mac")))) [
    | inl bad ↦ absurd (ground arith)
    | inr (mac, good) ↦ elim (Option-cases (positive (b.number (codes "days")))) [
      | inl bad ↦ absurd (ground arith)
      | inr (days, more) ↦
          let label = default (trim_space (b.text (codes "label"))) actor in
          let act =
            extend n (h.works x.calls) (h.works (x.calls + 1)) mac label days none h.now
              x.app.router in
          elim (Result-cases act.0) [
            | inl (m, fine) ↦
                let kept =
                  extend-IsSynced n laws (h.works x.calls) (h.works (x.calls + 1)) mac label days
                    none h.now x.app.router m y fine in
                ground (arith, kept)
            | inr (er, failed) ↦ absurd (ground arith)
          ]
    ]
  ]

  revoke-IsSynced :
      (b : Body) (x : Exchange n.State)
      → IsSynced n x.app.router
      → (api_mac_revoke n h r actor b x).0 ≡ replied done
      → IsSynced n (api_mac_revoke n h r actor b x).1.app.router
  unfolding api_mac_revoke
  revoke-IsSynced b x y e = elim (Option-cases (normalize_mac (b.text (codes "mac")))) [
    | inl bad ↦ absurd (ground arith)
    | inr (mac, good) ↦ elim (Result-cases (delete n (h.works x.calls) mac x.app.router).0) [
      | inl (u, fine) ↦
          ground (arith, delete-IsSynced n laws (h.works x.calls) mac x.app.router y (ground arith))
      | inr (er, failed) ↦ absurd (ground arith)
    ]
  ]

  known_mac-router :
      (mac : Text) (x : Exchange n.State)
      → (known_mac n h r actor mac x).1.app.router ≡ x.app.router
  unfolding known_mac get_mac
  known_mac-router mac x = ground arith

  store_label-IsSynced :
      (mac label : Text) (x : Exchange n.State)
      → IsSynced n x.app.router
      → IsSynced n (store_label n h r actor mac label x).1.app.router
  unfolding store_label
  store_label-IsSynced mac label x y =
      ground (arith, label-IsSynced n (h.works x.calls) mac label h.now x.app.router y)

  store_notes-IsSynced :
      (mac written : Text) (x : Exchange n.State)
      → IsSynced n x.app.router
      → IsSynced n (store_notes n h r actor mac written x).1.app.router
  unfolding store_notes
  store_notes-IsSynced mac written x y =
      ground (arith, notes-IsSynced n (h.works x.calls) mac written h.now x.app.router y)

  -- A call for a device that has to be known.
  known-IsSynced :
      (mac : Text) (rest : Step n.State (Unit {0})) (x : Exchange n.State)
      → ((z : Exchange n.State) → IsSynced n z.app.router → IsSynced n (rest z).1.app.router)
      → IsSynced n x.app.router
      → IsSynced n ((known_mac n h r actor mac >> rest) x).1.app.router
  known-IsSynced mac rest x keeps y =
      let same : IsSynced n (known_mac n h r actor mac x).1.app.router =
        subst (IsSynced n) (sym (known_mac-router mac x)) y in
      elim (Outcome-cases (known_mac n h r actor mac x).0) [
        | inl (_, e) ↦
            subst (λ (o : Outcome (Unit {0}) × Exchange n.State). IsSynced n o.1.app.router)
              (sym (bind-goes (known_mac n h r actor mac) (λ _. rest) x tt e))
              (keeps (known_mac n h r actor mac x).1 same)
        | inr (reply, e) ↦
            subst (λ (o : Outcome (Unit {0}) × Exchange n.State). IsSynced n o.1.app.router)
              (sym (bind-replied (known_mac n h r actor mac) (λ _. rest) x reply e)) same
      ]

  label_call-IsSynced :
      (b : Body) (x : Exchange n.State)
      → IsSynced n x.app.router
      → IsSynced n (api_mac_label n h r actor b x).1.app.router
  unfolding api_mac_label
  label_call-IsSynced b x y = elim (Option-cases (normalize_mac (b.text (codes "mac")))) [
    | inl bad ↦ rw bad y
    | inr (mac, good) ↦
        let label = capped 64 (trim_space (b.text (codes "label"))) in
        rw good (
          known-IsSynced mac (store_label n h r actor mac label) x (store_label-IsSynced mac label)
            y)
  ]

  notes_call-IsSynced :
      (b : Body) (x : Exchange n.State)
      → IsSynced n x.app.router
      → IsSynced n (api_mac_notes n h r actor b x).1.app.router
  unfolding api_mac_notes
  notes_call-IsSynced b x y = elim (Option-cases (normalize_mac (b.text (codes "mac")))) [
    | inl bad ↦ rw bad y
    | inr (mac, good) ↦
        let written = capped 1000 (trim_space (b.text (codes "notes"))) in
        rw good (
          known-IsSynced mac (store_notes n h r actor mac written) x
            (store_notes-IsSynced mac written) y)
  ]

  device_call-IsSynced :
      (what : DeviceCall) (b : Body) (x : Exchange n.State)
      → IsSynced n x.app.router
      → (device_call n h r actor what b x).0 ≡ replied done
      → IsSynced n (device_call n h r actor what b x).1.app.router
  unfolding device_call
  device_call-IsSynced grants b x y e = grant-IsSynced b x y e
  device_call-IsSynced revokes b x y e = revoke-IsSynced b x y e
  device_call-IsSynced relabels b x y e = label_call-IsSynced b x y
  device_call-IsSynced annotates b x y e = notes_call-IsSynced b x y

module _ (n : Nft) (laws : IsNft n) (h : Host) (r : Request) (ts : List ApiToken) where
  gated-IsSynced :
      (what : DeviceCall) (t : ApiToken) (x : Exchange n.State)
      → IsSynced n x.app.router
      → (gated n h r (on_device what) t x).0 ≡ replied done
      → IsSynced n (gated n h r (on_device what) t x).1.app.router
  unfolding api_call
  gated-IsSynced what t x y e = elim (Bool-cases (is_post r.method && not t.read_only)) [
    | inr turned ↦ absurd (ground arith)
    | inl entered ↦
        let not_get : is_get r.method ≡ false = ground arith in
        let post : is_post r.method ≡ true = ground arith in
        let writes : not t.read_only ≡ true = ground arith in
        elim (Option-cases r.body) [
          | inl missing ↦ absurd (ground arith)
          | inr (b, given) ↦
              let actor = codes "api:" ++ token_label t in
              let run : gated n h r (on_device what) t x ≡ device_call n h r actor what b x =
                rw (not_get, post, writes, given) in
              rw run
                (device_call-IsSynced n laws h r actor what b x y (ap (λ o. o.0) (sym run) ∙ e))
        ]
  ]

  -- A script's call on a device that answers with success keeps the firewall's set and the table of devices together: it
  -- may grant days, remove the device, or set its label or its notes.
  pub serve_api-IsSynced :
      (what : DeviceCall) (x : Exchange n.State)
      → IsSynced n x.app.router
      → (serve_api n h r ts (on_device what) x).0 ≡ replied done
      → IsSynced n (serve_api n h r ts (on_device what) x).1.app.router
  unfolding serve_api
  serve_api-IsSynced what x y e =
      let rest = λ (t : ApiToken). gated n h r (on_device what) t in
      let x1 = (match_bearer h ts r x).1 in
      let y1 = subst (IsSynced n) (sym (match_bearer-router h ts r x)) y in
      elim (Outcome-cases (match_bearer h ts r x).0) [
        | inr (reply, e1) ↦ rw (bind-replied (match_bearer h ts r) rest x reply e1) y1
        | inl (t, e1) ↦
            let run = bind-goes (match_bearer h ts r) rest x t e1 in
            rw run (gated-IsSynced what t x1 y1 (ap (λ o. o.0) (sym run) ∙ e))
      ]
