-- ===== src/Ingress/Nginx.antt =====
-- `getIngressNginxConf`: the text that the template `confTemplate` makes of a specification. The
-- template is a constant that parses, and it is filled with texts, so there is no error.
use typesense_operator.Base.{
  Text, codes, decimal, Option, none, some, [], ◌∷◌, ◌++◌, ◌==◌, if◌then◌else◌,
}
use typesense_operator.Api.{TypesenseCluster}

-- `strings.ReplaceAll(s, ";", ";\n")`
unfoldable pub break_directives : Text → Text
break_directives [] = []
break_directives (c ∷ s) =
    let rest = break_directives s in if c == b';' then b';' ∷ 10 ∷ rest else c ∷ rest

abbrev directives_or_empty : Option Text → Text
directives_or_empty none = []
directives_or_empty (some s) = break_directives s

-- `fmt.Sprintf(referer, …)`
abbrev pub referer_conf : Option Text → Text
referer_conf none = []
referer_conf (some r) =
    codes "valid_referers server_names "
    ++ (r ++ codes ";\n\t\t\t\t\tif ($invalid_referer) {\n\t\t\t\t  \t\treturn 403;\n\t\t\t\t\t}")

-- `{{- if .X}}`, the text before `{{.X}}`, and `{{- end}}`.
abbrev section : Text → Text → Text
section lead [] = []
section lead (c ∷ s) = lead ++ (c ∷ s)

-- `nginxConfData`
pub record NginxConfData : Type 0 where
  pub http_directives : Text
  pub server_directives : Text
  pub location_directives : Text
  pub referer : Text
  pub service_name : Text
  pub service_port : Text

unfoldable pub nginx_conf_data : TypesenseCluster → NginxConfData
nginx_conf_data ts = elim ts.ingress [
  | none ↦ record {
    http_directives = [];
    server_directives = [];
    location_directives = [];
    referer = [];
    service_name = ts.name;
    service_port = decimal ts.api_port;
  }
  | some ig ↦ record {
    http_directives = directives_or_empty ig.http_directives;
    server_directives = directives_or_empty ig.server_directives;
    location_directives = directives_or_empty ig.location_directives;
    referer = referer_conf ig.referer;
    service_name = ts.name;
    service_port = decimal ts.api_port;
  }
]

-- `confTemplate`, executed.
unfoldable pub render_conf : NginxConfData → Text
render_conf d =
    codes "events {}\n\t\thttp {"
    ++ (section (codes "\n\t\t  ") d.http_directives
        ++ (codes "\n\t\t  server {\n\t\t\tlisten 80;"
            ++ (section (codes "\n\t\t\t") d.referer
                ++ (section (codes "\n\t\t\t") d.server_directives
                    ++ (codes "\n\t\t\tlocation / {\n\t\t\t  proxy_pass http://"
                        ++ (d.service_name
                            ++ (codes "-svc:"
                                ++ (d.service_port
                                    ++ (codes "/;\n\t\t\t  proxy_pass_request_headers on;"
                                        ++ (section (codes "\n\t\t\t  ") d.location_directives
                                            ++ codes "\n\t\t\t}\n\t\t  }\n\t\t}"))))))))))

-- `getIngressNginxConf`
unfoldable pub get_ingress_nginx_conf : TypesenseCluster → Text
unfolding nginx_conf_data render_conf
get_ingress_nginx_conf ts = render_conf (nginx_conf_data ts)
