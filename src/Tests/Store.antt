-- ===== src/Tests/Store.antt =====
-- A Redis in memory that always answers and lets nothing expire: an instance of `Redis` that meets
-- what the documentation is relied on for.
use llmgov.Base.{
  ℕ, ◌+◌, ◌≡◌, ◌≢◌, refl, ap, sym, ◌∙◌, inl, inr, true, List, [], ◌∷◌, Option, none, some, Text,
  text_eq, text_eq_iff, text_eq_refl, if◌then◌else◌, Bool-cases,
}
use llmgov.Redis.{Redis, Command, incr, expire, setex, set}
use llmgov.RateLimit.Window.{CountsHits}
use llmgov.Cache.Store.{KeepsValues}

pub record Db : Type 0 where
  pub counts : Text → ℕ
  pub values : Text → Option Text
  pub app_ids : Text → Option Text

abbrev pub update : {A : Type 0} → Text → A → (Text → A) → Text → A
update key a f other = if text_eq other key then a else f other

abbrev apply : Command → Db → ℕ × Db
apply (incr key) db =
    (db.counts key + 1, record db { counts = update key (db.counts key + 1) db.counts })
apply (expire key ttl) db = (1, db)
apply (setex key ttl value) db = (1, record db { values = update key (some value) db.values })
apply (set key value) db = (1, record db { values = update key (some value) db.values })

abbrev execute : List Command → Db → List ℕ × Db
execute [] db = ([], db)
execute (c ∷ cs) db =
    let (reply, db') = apply c db in let (replies, db'') = execute cs db' in (reply ∷ replies, db'')

abbrev pub memory : Redis
memory = record {
  Db = Db;
  transaction = λ now commands db. let (replies, db') = execute commands db in (some replies, db');
  get = λ now key db. some (db.values key);
  hget = λ now key field db. some (db.app_ids key);
  ping = λ db. true;
}

pub update_same : {A : Type 0} (key : Text) (a : A) (f : Text → A) → update key a f key ≡ a
update_same key a f = rw (text_eq_refl key) refl

pub update_other :
    {A : Type 0} (key other : Text) (a : A) (f : Text → A)
    → other ≢ key
    → update key a f other ≡ f other
update_other key other a f h = elim (Bool-cases (text_eq other key)) [
  | inl same ↦ absurd (h ((text_eq_iff other key).0 same))
  | inr differ ↦ rw differ refl
]

pub some-ne-none : {A : Type 0} (a : A) → some a ≢ none
some-ne-none a e = cc

pub some_inj : {A : Type 0} (a b : A) → some a ≡ some b → a ≡ b
some_inj a b e = cc

abbrev pub memory-CountsHits : CountsHits memory
memory-CountsHits = record {
  count = λ now key db. db.counts key;
  reply = λ now ttl key db results e. (1 ∷ [], sym (some_inj _ _ e));
  kept = λ now ttl key db results e t le lt. update_same key (db.counts key + 1) db.counts;
  failed = λ now ttl key db e t le lt. absurd (some-ne-none _ e);
  others = λ now ttl key other db h t le. update_other key other (db.counts key + 1) db.counts h;
}

abbrev pub memory-KeepsValues : KeepsValues memory
memory-KeepsValues = record {
  stored = λ now ttl first value second value' db replies e t le lt found answered.
      sym (some_inj _ _ answered)
      ∙ update_same second (some value') (update first (some value) db.values);
  untouched = λ now ttl first value second value' other db h h' t. ap some (
      update_other second other (some value') (update first (some value) db.values) h'
      ∙ update_other first other (some value) db.values h);
}

-- Nothing counted, nothing cached, and one application.
abbrev pub accounts : Text → Db
accounts key = record {
  counts = λ key. 0;
  values = λ key. none;
  app_ids = λ k. if text_eq k key then some (b'a' ∷ []) else none;
}
