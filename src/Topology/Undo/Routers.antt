-- ===== src/Topology/Undo/Routers.antt =====
-- An interface that was just added is the one that `_remove_interface_from_br` takes out.
use esdx_scion.Base.{
  ◌≡◌, refl, ap, subst, true, false, none, some, [], ◌∷◌, ◌++◌, Bool-cases, inl, inr, All,
}
use esdx_scion.Text.{Text, text_eq}
use esdx_scion.Dict.{Dict, get, put}
use esdx_scion.Topology.{Interface, Router, remove_remote, remove_from_routers}

-- No interface leads to this remote address.
abbrev pub HasNoRemote : Text → Dict Interface → Type 0
HasNoRemote remote = All (λ e. text_eq e.1.remote_addr remote ≡ false)

abbrev pub AllNoRemote : Text → Dict Router → Type 0
AllNoRemote remote = All (λ e. HasNoRemote remote e.1.interfaces)

remove_remote-none :
    (remote : Text) (d : Dict Interface) → HasNoRemote remote d → remove_remote remote d ≡ none
remove_remote-none remote [] h = refl
remove_remote-none remote ((k, i) ∷ d) h = rw (h.0, remove_remote-none remote d h.1)

pub remove_remote_last :
    (k remote : Text) (d : Dict Interface) (i : Interface)
    → HasNoRemote remote d
    → text_eq i.remote_addr remote ≡ true
    → remove_remote remote (d ++ ((k, i) ∷ [])) ≡ some d
remove_remote_last k remote [] i h e = rw e
remove_remote_last k remote ((j, x) ∷ d) i h e = rw (h.0, remove_remote_last k remote d i h.1 e)

-- the ESDX router is new
pub remove_from_new :
    (name remote : Text) (routers : Dict Router) (br : Router)
    → AllNoRemote remote routers
    → remove_remote remote br.interfaces ≡ some []
    → remove_from_routers remote (routers ++ ((name, br) ∷ []))
      ≡ some (routers ++ ((name, record br { interfaces = [] }) ∷ []))
remove_from_new name remote [] br h e = rw (remove_from_routers, e)
remove_from_new name remote ((j, w) ∷ routers) br h e = rw (
  remove_from_routers,
  remove_remote-none remote w.interfaces h.0,
  remove_from_new name remote routers br h.1 e,
)

-- the ESDX router was there
pub remove_from_old :
    (name remote : Text) (routers : Dict Router) (br : Router) (d : Dict Interface)
    → AllNoRemote remote routers
    → get name routers ≡ some br
    → remove_remote remote d ≡ some br.interfaces
    → remove_from_routers remote (put name (record br { interfaces = d }) routers) ≡ some routers
remove_from_old name remote [] br d h g e = absurd (cc)
remove_from_old name remote ((j, w) ∷ routers) br d h g e = elim (Bool-cases (text_eq j name)) [
  | inl here ↦
      let same : br ≡ w = cc (rw here at g) in
      rw (here, remove_from_routers, e) (ap (λ (r : Router). some ((j, r) ∷ routers)) same)
  | inr there ↦ rw (
    there,
    remove_from_routers,
    remove_remote-none remote w.interfaces h.0,
    remove_from_old name remote routers br d h.1 (rw there at g) e,
  )
]

pub HasNoRemote-get :
    (name remote : Text) (routers : Dict Router) (br : Router)
    → AllNoRemote remote routers
    → get name routers ≡ some br
    → HasNoRemote remote br.interfaces
HasNoRemote-get name remote [] br h g = absurd (cc)
HasNoRemote-get name remote ((j, w) ∷ routers) br h g = elim (Bool-cases (text_eq j name)) [
  | inl here ↦
      let same : w ≡ br = cc (rw here at g) in
      subst (λ (r : Router). HasNoRemote remote r.interfaces) same h.0
  | inr there ↦ HasNoRemote-get name remote routers br h.1 (rw there at g)
]
