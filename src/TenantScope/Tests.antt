-- ===== src/TenantScope/Tests.antt =====
-- Names and values of settings at concrete inputs.
use world_infra.Prelude.{◌≡◌, refl, [], ◌++◌, some, ok}
use world_infra.Text.{Text, codes}
use world_infra.Text.Scan.{replace}
use world_infra.TenantScope.{
  SettingName, text, to_scope_value, quote_setting_value, set_local_statement,
}
use world_infra.TenantScope.Literal.{
  skip_space, read_body, read_literal, read_literal-quote_setting_value,
  set_local_statement-read_literal,
}

abbrev hostile : Text
hostile = codes "o'; DROP \\ '"

abbrev quoted : Text
quoted = codes "E'o''; DROP \\\\ '''"

read_literal-quote_setting_value_example :
    read_literal (quoted ++ codes "; SELECT 1") ≡ some (hostile, codes "; SELECT 1")
unfolding quote_setting_value to_scope_value replace skip_space
read_literal-quote_setting_value_example =
    read_literal-quote_setting_value (text hostile) quoted hostile (codes "; SELECT 1") refl refl
      refl

-- A quote on the next line goes on with the literal.
continued : read_literal (codes "E'a' -- x\n 'b' c") ≡ some (codes "ab", codes " c")
unfolding read_literal read_body
continued = refl

abbrev tenant : SettingName
tenant = record { value = codes "app.tenant_id" }

abbrev statement : Text
statement = codes "SET LOCAL app.tenant_id = " ++ quoted

set_local_statement-read_literal_example :
    (q t : Text) × (statement ≡ codes "SET LOCAL " ++ (codes "app.tenant_id" ++ (codes " = " ++ q)))
    × (to_scope_value (text hostile) ≡ ok t)
    × (read_literal q ≡ some (t, []))
unfolding set_local_statement quote_setting_value to_scope_value replace
set_local_statement-read_literal_example =
    set_local_statement-read_literal tenant (text hostile) statement refl
