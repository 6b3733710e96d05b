-- ===== src/Database/Tests.antt =====
-- Concrete statements.
use aurelian_autonomous_ente.Prelude.{ℕ, ◌≡◌, refl, Bool, false, codes, Text}
use aurelian_autonomous_ente.Engine.Keys.{decimal}
use aurelian_autonomous_ente.Database.Placeholders.{pg_placeholders}
use aurelian_autonomous_ente.Database.Tokens.{translate, line_length}
use aurelian_autonomous_ente.Database.Translation.{pg_placeholders-translate}

abbrev no_word : ℕ → Bool
no_word c = false

abbrev quoted : Text
quoted = codes "SELECT 'why?' WHERE a=? AND b=?"

numbers_placeholders : pg_placeholders no_word quoted ≡ codes "SELECT 'why?' WHERE a=$1 AND b=$2"
unfolding pg_placeholders decimal
numbers_placeholders = refl

-- A lone "?" is a placeholder, also where PostgreSQL has an operator of that name.
lone_operator : pg_placeholders no_word (codes "tags ? 'x'") ≡ codes "tags $1 'x'"
unfolding pg_placeholders decimal
lone_operator = refl

abbrev operators : Text
operators = codes "a ?| b ? -- ?"

translates : translate no_word 0 0 operators ≡ codes "a ?| b $1 -- ?"
unfolding translate line_length decimal
translates = refl

pg_placeholders-translate_example : pg_placeholders no_word quoted ≡ translate no_word 0 0 quoted
pg_placeholders-translate_example = pg_placeholders-translate no_word quoted
