-- ===== src/Spock/Names.antt =====
-- internal/spock/names.go: the names of slots and subscriptions.
pub mod Distinct
use pgedge_helm.Base.{ℕ, Bool, List, ◌++◌, map, if◌then◌else◌}
use pgedge_helm.Base.Text.{Text, bytes, byte_eq}

-- `strings.ReplaceAll(s, "-", "_")`
abbrev pub undash : ℕ → ℕ
undash c = if byte_eq c b'-' then b'_' else c

abbrev pub replace_dashes : Text → Text
replace_dashes = map undash

-- `fmt.Sprintf("%s_%s", a, b)`
unfoldable pub pair_id : Text → Text → Text
pair_id a b = a ++ (bytes "_" ++ b)

unfoldable pub spock_slot_name : Text → Text → Text → Text
spock_slot_name db_name provider_name subscriber_name = replace_dashes (
    bytes "spk_"
    ++ (db_name
        ++ (bytes "_"
            ++ (provider_name
                ++ (bytes "_sub_" ++ (provider_name ++ (bytes "_" ++ subscriber_name)))))))

unfoldable pub spock_sub_name : Text → Text → Text
spock_sub_name src_name dst_name =
    replace_dashes (bytes "sub_" ++ (src_name ++ (bytes "_" ++ dst_name)))
