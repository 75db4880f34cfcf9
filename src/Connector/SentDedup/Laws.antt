-- ===== src/Connector/SentDedup/Laws.antt =====
-- What is recorded as sent is found, and only that, until it is cleaned up.
use matrimail.Prelude.{
  Bool, Bool-cases, List, Text, [], any, ap, arith, false, if◌then◌else◌, inl, inr, none, not, refl,
  some, text_eq, text_eq_iff, true, ℕ, ◌&&◌, ◌||◌, ◌∙◌, ◌∷◌, ◌≡◌, ◌≤◌,
}
use matrimail.Prelude.Strings.{text_eq_refl}
use matrimail.Email.Threading.{is_empty}
use matrimail.Connector.SentDedup.{
  Row, SentDedupQuery, has_key, upsert, record_sent, exists_sent, is_old, delete_old, cleanup,
}

-- the key of the one equals that of the other
has_key-same :
    (b r m : Text) (new row : Row)
    → has_key new.bridge_id new.receiver new.message_id row ≡ true
    → has_key b r m new ≡ has_key b r m row
has_key-same b r m new row h = ground (
  arith,
  text_eq_iff row.bridge_id new.bridge_id,
  text_eq_iff row.receiver new.receiver,
  text_eq_iff row.message_id new.message_id,
  same row.bridge_id new.bridge_id b,
  same row.receiver new.receiver r,
  same row.message_id new.message_id m,
)
  where
    same : (x y k : Text) → x ≡ y → text_eq y k ≡ text_eq x k
    same x y k e = rw e

or_absorb : (x y z : Bool) → z ≡ x → (x || y) ≡ ((x || y) || z)
or_absorb x y z h = ground arith

or_assoc : (x y z : Bool) → (x || (y || z)) ≡ ((x || y) || z)
or_assoc x y z = ground arith

any-upsert :
    (b r m : Text) (new : Row) (rows : List Row)
    → any (has_key b r m) (upsert new rows) ≡ (any (has_key b r m) rows || has_key b r m new)
unfolding any upsert
any-upsert b r m new [] = ground arith
any-upsert b r m new (row ∷ rows) =
    elim (Bool-cases (has_key new.bridge_id new.receiver new.message_id row)) [
      | inl e ↦ rw e (
          or_absorb (has_key b r m row) (any (has_key b r m) rows) (has_key b r m new)
            (has_key-same b r m new row e))
      | inr n ↦ rw n (
          ap (λ c. has_key b r m row || c) (any-upsert b r m new rows)
          ∙ or_assoc (has_key b r m row) (any (has_key b r m) rows) (has_key b r m new))
    ]

-- what Record does where it succeeds
recorded :
    (b : Bool) (x q' : SentDedupQuery)
    → (if b then none else some x) ≡ some q'
    → (b ≡ false) × (q' ≡ x)
recorded true x q' h = cc
recorded false x q' h = (refl, cc)

-- After a message is recorded, Exists says yes of this message for this receiver, and of every other
-- pair of a non-empty id and a receiver what it said before.
exists_sent-record_sent :
    (now : ℕ) (receiver message_id matrix_evt_id r m : Text) (q q' : SentDedupQuery)
    → record_sent now receiver message_id matrix_evt_id q ≡ some q'
    → is_empty m ≡ false
    → exists_sent r m q' ≡ (exists_sent r m q || (text_eq receiver r && text_eq message_id m))
unfolding record_sent exists_sent
exists_sent-record_sent now receiver message_id matrix_evt_id r m q q' h n =
    let (filled, e) = recorded (is_empty message_id) _ q' h in
    let own = text_eq_refl q.bridge_id in
    rw e (
      rw n (
        any-upsert q.bridge_id r m _ q.rows
        ∙ ap
            (λ c.
              any (has_key q.bridge_id r m) q.rows
              || (c && (text_eq receiver r && text_eq message_id m)))
            own))

-- what Exists looks for and Cleanup leaves
survives : Text → Text → Text → ℕ → Row → Bool
survives b r m older_than row = has_key b r m row && not (is_old b older_than row)

dropped : (a x y : Bool) → x ≡ y → x ≡ ((a && not true) || y)
dropped a x y h = ground arith

kept : (a x y : Bool) → x ≡ y → (a || x) ≡ ((a && not false) || y)
kept a x y h = ground arith

any-delete_old :
    (b r m : Text) (older_than : ℕ) (rows : List Row)
    → any (has_key b r m) (delete_old b older_than rows).0 ≡ any (survives b r m older_than) rows
unfolding any delete_old survives
any-delete_old b r m older_than [] = refl
any-delete_old b r m older_than (row ∷ rows) = elim (Bool-cases (is_old b older_than row)) [
  | inl e ↦ rw e (dropped (has_key b r m row) _ _ (any-delete_old b r m older_than rows))
  | inr n ↦ rw n (kept (has_key b r m row) _ _ (any-delete_old b r m older_than rows))
]

survives_fresh :
    (b r m : Text) (older_than : ℕ) (row : Row)
    → has_key b r m row ≡ true
    → older_than ≤ row.sent_at
    → survives b r m older_than row ≡ true
unfolding survives
survives_fresh b r m older_than row k h = ground arith

or_first : (x y : Bool) → x ≡ true → (x || y) ≡ true
or_first x y h = ground arith

or_second : (x y : Bool) → y ≡ true → (x || y) ≡ true
or_second x y h = ground arith

has_key_refl : (row : Row) → has_key row.bridge_id row.receiver row.message_id row ≡ true
has_key_refl row =
    rw (text_eq_refl row.bridge_id, text_eq_refl row.receiver, text_eq_refl row.message_id)

any-survives :
    (new : Row) (older_than : ℕ) (rows : List Row)
    → older_than ≤ new.sent_at
    → any (survives new.bridge_id new.receiver new.message_id older_than) (upsert new rows) ≡ true
unfolding any upsert
any-survives new older_than [] h =
    or_first _ false (survives_fresh _ _ _ older_than new (has_key_refl new) h)
any-survives new older_than (row ∷ rows) h =
    elim (Bool-cases (has_key new.bridge_id new.receiver new.message_id row)) [
      | inl e ↦ rw e (
          or_first _ _ (
            survives_fresh _ _ _ older_than
              (record row { matrix_evt_id = new.matrix_evt_id; sent_at = new.sent_at }) e h))
      | inr n ↦ rw n (or_second _ _ (any-survives new older_than rows h))
    ]

-- A message that is recorded is still found after a Cleanup of what is older than a time that is not
-- after its recording.
pub exists_sent-cleanup :
    (now older_than : ℕ) (receiver message_id matrix_evt_id : Text) (q q' : SentDedupQuery)
    → record_sent now receiver message_id matrix_evt_id q ≡ some q'
    → older_than ≤ now
    → exists_sent receiver message_id (cleanup older_than q').0 ≡ true
unfolding record_sent exists_sent cleanup
exists_sent-cleanup now older_than receiver message_id matrix_evt_id q q' h o =
    let (filled, e) = recorded (is_empty message_id) _ q' h in
    rw e (
      rw filled (
        any-delete_old q.bridge_id receiver message_id older_than _
        ∙ any-survives _ older_than q.rows o))
