-- ===== src/Judge/Entries.antt =====
-- How the modes read the entries of the payload (`payload[key]` in the three files of modes/).
use acoj_worker.Common.{String, Option, none, some, key_error, type_error, ◌≡◌, refl}
use acoj_worker.Common.Exec.{Exec, Ensures, pure, throw, ◌>>=◌}
use acoj_worker.Judge.Types.{Language}

-- `payload[key]`
abbrev pub item : {S A : Type 0} → Option A → String → Exec S A
item none key s = throw (key_error key) s
item (some a) key s = pure a s

-- `language["key"]`, the first use of the language
abbrev pub language_item : {S : Type 0} → Option Language → Exec S Language
language_item none s = throw (type_error "'NoneType' object is not subscriptable") s
language_item (some language) s = pure language s

-- What is done with an entry is done with what the payload has there.
pub Ensures-item :
    {S A B : Type 0} (P : B → Type 0) (o : Option A) (key : String) (f : A → Exec S B)
    → ((a : A) → o ≡ some a → Ensures P (f a))
    → Ensures P (item o key >>= f)
Ensures-item P none key f h s b e = cc
Ensures-item P (some a) key f h s b e = h a refl s b e
