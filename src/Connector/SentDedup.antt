-- ===== src/Connector/SentDedup.antt =====
-- pkg/connector/sent_dedup.go: the table of the messages that the bridge sent itself. The database is
-- the list of the table's rows; each SQL statement is written out as what it does to them, with the
-- primary key (bridge_id, receiver, message_id). `now` is `time.Now().Unix()`. The statements do not
-- fail here, and the receiver of the methods is not nil.
pub mod Laws
use matrimail.Prelude.{
  Bool, List, Option, Text, [], any, false, if◌then◌else◌, ltb, none, some, text_eq, ℕ, ◌&&◌, ◌++◌,
  ◌+◌, ◌==◌, ◌∷◌,
}
use matrimail.Email.Threading.{is_empty}

pub record Row : Type 0 where
  pub bridge_id : Text
  pub receiver : Text
  pub message_id : Text
  pub matrix_evt_id : Text
  pub sent_at : ℕ

-- SentDedupQuery, with its table for DB
pub record SentDedupQuery : Type 0 where
  pub bridge_id : Text
  pub rows : List Row

-- the rows of one primary key
abbrev pub has_key : Text → Text → Text → Row → Bool
has_key bridge receiver message_id row =
    text_eq row.bridge_id bridge
    && (text_eq row.receiver receiver && text_eq row.message_id message_id)

-- INSERT ... ON CONFLICT (...) DO UPDATE
unfoldable pub upsert : Row → List Row → List Row
upsert new [] = new ∷ []
upsert new (row ∷ rows) =
    let rest = upsert new rows in
    if has_key new.bridge_id new.receiver new.message_id row
    then record row { matrix_evt_id = new.matrix_evt_id; sent_at = new.sent_at } ∷ rows
    else row ∷ rest

-- Record; `none` is the error for an empty id.
unfoldable pub record_sent : ℕ → Text → Text → Text → SentDedupQuery → Option SentDedupQuery
record_sent now receiver message_id matrix_evt_id q =
    if is_empty message_id
    then none
    else some (record q {
      rows =
          upsert
            (record {
              bridge_id = q.bridge_id;
              receiver = receiver;
              message_id = message_id;
              matrix_evt_id = matrix_evt_id;
              sent_at = now;
            })
            q.rows;
    })

-- Exists
unfoldable pub exists_sent : Text → Text → SentDedupQuery → Bool
exists_sent receiver message_id q =
    if is_empty message_id then false else any (has_key q.bridge_id receiver message_id) q.rows

-- the condition of Cleanup's DELETE
abbrev pub is_old : Text → ℕ → Row → Bool
is_old bridge older_than row = text_eq row.bridge_id bridge && ltb row.sent_at older_than

unfoldable pub delete_old : Text → ℕ → List Row → List Row × ℕ
delete_old bridge older_than [] = ([], 0)
delete_old bridge older_than (row ∷ rows) =
    let (kept, n) = delete_old bridge older_than rows in
    if is_old bridge older_than row then (kept, n + 1) else (row ∷ kept, n)

-- Cleanup, with the count that it returns
unfoldable pub cleanup : ℕ → SentDedupQuery → SentDedupQuery × ℕ
cleanup older_than q =
    let (kept, n) = delete_old q.bridge_id older_than q.rows in (record q { rows = kept }, n)

-- dialectQuery: the placeholders behind `n` ones; `digits` is how fmt prints a number.
unfoldable pub number_placeholders : (ℕ → Text) → ℕ → Text → Text
number_placeholders digits n [] = []
number_placeholders digits n (c ∷ s) =
    if c == b'?'
    then b'$' ∷ (digits (n + 1) ++ number_placeholders digits (n + 1) s)
    else c ∷ number_placeholders digits n s

unfoldable pub dialect_query : (ℕ → Text) → Bool → Text → Text
dialect_query digits postgres q = if postgres then number_placeholders digits 0 q else q
