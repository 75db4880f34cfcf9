-- ===== src/Imap/Uids/Laws.antt =====
-- How the fields of the client change.
use matrimail.Prelude.{Bool, Text, [], ap, arith, false, refl, sym, true, ℕ, ◌==◌, ◌∷◌, ◌≡◌}
use matrimail.Imap.Uids.{
  Client, last_uid, set_last_uid, in_flight, set_in_flight, has_uid, delete_uid, start_uid, end_uid,
  drop_if_hard,
}

-- nothing in flight: a UID can be started, and ending it leaves the client as it was
pub start_uid-free :
    (uid : ℕ) (is_sent : Bool) (c : Client)
    → in_flight is_sent c ≡ []
    → start_uid uid is_sent c ≡ (set_in_flight is_sent (uid ∷ []) c, true)
unfolding start_uid has_uid
start_uid-free uid is_sent c h = rw h

pub end_uid-started :
    (uid : ℕ) (is_sent : Bool) (c : Client)
    → in_flight is_sent c ≡ []
    → end_uid uid is_sent (set_in_flight is_sent (uid ∷ []) c) ≡ c
unfolding end_uid delete_uid set_in_flight in_flight
end_uid-started uid true c h =
    let t : (uid == uid) ≡ true = ground arith in
    rw t (ap (λ l. record c { in_flight_sent = l }) (sym h))
end_uid-started uid false c h =
    let t : (uid == uid) ≡ true = ground arith in
    rw t (ap (λ l. record c { in_flight_inbox = l }) (sym h))

-- the fields are apart
pub in_flight-set_last_uid :
    (is_sent : Bool) (n : ℕ) (c : Client)
    → in_flight is_sent (set_last_uid is_sent n c) ≡ in_flight is_sent c
unfolding in_flight set_last_uid
in_flight-set_last_uid true n c = refl
in_flight-set_last_uid false n c = refl

pub last_uid-set_last_uid :
    (is_sent : Bool) (n : ℕ) (c : Client) → last_uid is_sent (set_last_uid is_sent n c) ≡ n
unfolding last_uid set_last_uid
last_uid-set_last_uid true n c = refl
last_uid-set_last_uid false n c = refl

pub in_flight-drop_if_hard :
    (err : Text) (is_sent : Bool) (c : Client)
    → in_flight is_sent (drop_if_hard err c) ≡ in_flight is_sent c
unfolding in_flight drop_if_hard
in_flight-drop_if_hard err true c = ground arith
in_flight-drop_if_hard err false c = ground arith

pub last_uid-drop_if_hard :
    (err : Text) (is_sent : Bool) (c : Client)
    → last_uid is_sent (drop_if_hard err c) ≡ last_uid is_sent c
unfolding last_uid drop_if_hard
last_uid-drop_if_hard err true c = ground arith
last_uid-drop_if_hard err false c = ground arith
