-- ===== src/Connector/Reauth/Spaced.antt =====
-- A user is not flooded with notices.
use matrimail.Prelude.TextMap.{lookup-put}
use matrimail.Connector.Accounts.{auth_needs_reauth}
use matrimail.Connector.Accounts.Query.{set_auth_type}
use matrimail.Prelude.{
  text_eq_iff, ap, sym, ◌∙◌, Bool, Bool-cases, Text, inl, inr, refl, text_eq, true, ◌&&◌, ◌⊎◌, All,
  List, Option, [], arith, false, none, some, ℕ, ◌+◌, ◌∷◌, ◌≡◌, ◌≤◌,
}
use matrimail.Connector.Reauth.{
  auth_needs_reauth, set_auth_type, is_refresh_error, notices_of, handle_refresh_error, Failing,
  put, reauth_memo_key, lookup, notify_reauth_required, Notices, notify_on_disk, noted, is_recent,
  reauth_debounce_window,
}

-- times that come at least an hour after one another
abbrev pub Spaced : List ℕ → Type 0
Spaced [] = Unit
Spaced (t ∷ ts) = All (λ u. t + reauth_debounce_window ≤ u) ts × Spaced ts

-- no time is within the hour behind this one
abbrev After : Option ℕ → List ℕ → Type 0
After none ts = Unit
After (some t) ts = All (λ u. t + reauth_debounce_window ≤ u) ts

After-none : (o : Option ℕ) → After o []
After-none none = tt
After-none (some t) = tt

later : (t u : ℕ) (ts : List ℕ) → t ≤ u → After (some u) ts → After (some t) ts
later t u [] h a = tt
later t u (v ∷ ts) h a = (omega (arith, h, a.0), later t u ts h a.1)

later-recent :
    (o : Option ℕ) (u : ℕ) (ts : List ℕ) → is_recent u o ≡ false → After (some u) ts → After o ts
unfolding is_recent
later-recent none u ts h a = tt
later-recent (some t) u ts h a = later t u ts (ground (arith, h)) a

later-noted :
    (o : Option ℕ) (b : Bool) (u : ℕ) (ts : List ℕ)
    → is_recent u o ≡ false
    → After (some u) ts
    → After o (noted b u ts)
later-noted o false u ts h a = later-recent o u ts h a
later-noted none true u ts h a = tt
later-noted (some t) true u ts h a =
    ((unfold is_recent in ground (arith, h)), later-recent (some t) u ts h a)

Spaced-noted :
    (b : Bool) (u : ℕ) (ts : List ℕ) → After (some u) ts → Spaced ts → Spaced (noted b u ts)
Spaced-noted false u ts a s = s
Spaced-noted true u ts a s = (a, s)

-- what one failure does to the memory of an account: nothing, and no notice; or it is of this time,
-- and the memory was old enough
Step : Text → ℕ → Notices → Notices → Bool → Type 0
Step key now n n' sent =
    ((lookup key n'.reauth_memo ≡ lookup key n.reauth_memo) × (sent ≡ false))
    ⊎ ((lookup key n'.reauth_memo ≡ some now) × (is_recent now (lookup key n.reauth_memo) ≡ false))

notify_on_disk-reauth_memo :
    (now : ℕ) (user email : Text) (n : Notices)
    → (notify_on_disk now user email n).0.reauth_memo ≡ n.reauth_memo
unfolding notify_on_disk
notify_on_disk-reauth_memo now user email n = ground arith

notify-Step :
    (key : Text) (now : ℕ) (user email : Text) (n : Notices)
    → Step key now n
        (notify_reauth_required now user email n).0
        ((notify_reauth_required now user email n).1 && text_eq (reauth_memo_key user email) key)
unfolding notify_reauth_required Step
notify-Step key now user email n =
    let own = reauth_memo_key user email in
    let next = record n { reauth_memo = put own now n.reauth_memo } in
    let memo =
      ap (lookup key) (notify_on_disk-reauth_memo now user email next)
      ∙ lookup-put own key now n.reauth_memo in
    elim (Bool-cases (is_recent now (lookup own n.reauth_memo))) [
      | inl y ↦ rw y (inl (refl, refl))
      | inr r ↦ rw r (elim (Bool-cases (text_eq own key)) [
        | inl same ↦
            let e : own ≡ key = (text_eq_iff own key).0 same in
            inr (memo ∙ rw same refl, ap (λ k. is_recent now (lookup k n.reauth_memo)) (sym e) ∙ r)
        | inr other ↦ inl (memo ∙ rw other refl, ground (arith, other))
      ])
    ]

handle-Step :
    (key : Text) (f : Failing) (n : Notices)
    → Step key f.now n (handle_refresh_error f.now f.user f.email f.error n).0.0 (
        (handle_refresh_error f.now f.user f.email f.error n).0.1
        && text_eq (reauth_memo_key f.user f.email) key)
unfolding handle_refresh_error Step
handle-Step key f n = elim (Bool-cases (is_refresh_error f.error)) [
  | inl y ↦ rw y (
      notify-Step key f.now f.user f.email
        (record n { rows = set_auth_type f.user f.email auth_needs_reauth n.rows }))
  | inr r ↦ rw r (inl (refl, refl))
]

stepped :
    (key : Text) (now : ℕ) (n n' : Notices) (ts : List ℕ) (b : Bool)
    → Step key now n n' b
    → After (lookup key n'.reauth_memo) ts
    → Spaced ts
    → After (lookup key n.reauth_memo) (noted b now ts) × Spaced (noted b now ts)
unfolding Step
stepped key now n n' ts b (inl (same, none_sent)) after spaced =
    rw none_sent (rw same at after, spaced)
stepped key now n n' ts b (inr (new, old)) after spaced =
    let behind = rw new at after in
    (
      later-noted (lookup key n.reauth_memo) b now ts old behind,
      Spaced-noted b now ts behind spaced,
    )

notices_of-After :
    (key : Text) (fs : List Failing) (n : Notices)
    → After (lookup key n.reauth_memo) (notices_of key fs n) × Spaced (notices_of key fs n)
unfolding notices_of
notices_of-After key [] n = (After-none (lookup key n.reauth_memo), tt)
notices_of-After key (f ∷ fs) n =
    let n' = (handle_refresh_error f.now f.user f.email f.error n).0.0 in
    let (after, spaced) = notices_of-After key fs n' in
    stepped key f.now n n' (notices_of key fs n') _ (handle-Step key f n) after spaced

-- However the failures of any accounts follow one another, whatever the clock says and whatever stands
-- in the table, the notices about an account are at least an hour apart.
pub notices_of-Spaced :
    (user email : Text) (fs : List Failing) (n : Notices)
    → Spaced (notices_of (reauth_memo_key user email) fs n)
notices_of-Spaced user email fs n = (notices_of-After (reauth_memo_key user email) fs n).1
