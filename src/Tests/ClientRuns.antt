-- ===== src/Tests/ClientRuns.antt =====
-- Addresses of ClickHouse.
use llmgov.Base.{◌≡◌, refl, Option, some, Text, codes}
use llmgov.Regex.{replace, split_by}
use llmgov.Audit.Client.{host_of, port_of}
use llmgov.Config.{default_settings}

abbrev to_text : Text → Option Text
to_text t = some t

default_host : host_of default_settings.clickhouse_url ≡ codes "localhost"
unfolding host_of replace split_by default_settings
default_host = refl

default_port : port_of (codes "8123") to_text default_settings.clickhouse_url ≡ some (codes "8123")
unfolding port_of split_by default_settings
default_port = refl

no_port : port_of (codes "8123") to_text (codes "https://ch") ≡ some (codes "8123")
unfolding port_of split_by
no_port = refl

-- A user in the address is taken for the host, and a path goes to `int`.
user_as_host : host_of (codes "http://u:p@ch:9") ≡ codes "u"
unfolding host_of replace split_by
user_as_host = refl

path_in_port : port_of (codes "8123") to_text (codes "http://ch:9/") ≡ some (codes "9/")
unfolding port_of split_by
path_in_port = refl
