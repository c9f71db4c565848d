-- ===== src/Sdk/BuiltIn.antt =====
-- client.go: the endpoints and durations of a client that `NewClient` builds.
use ipgw_meta.Prelude.{String, true, false, []}
use ipgw_meta.Text.{Bytes, codes}
use ipgw_meta.Sdk.Url.{Url, https}
use ipgw_meta.Sdk.Http.{Client}

abbrev pub parsed : Bytes → String → String → Url
parsed scheme host path = record {
  scheme = scheme;
  opaque = [];
  has_user = false;
  hostname = codes host;
  port = [];
  path = codes path;
  query = [];
  query_ok = true;
  raw_query = false;
  fragment = [];
}

-- `defaultEndpoints`, and the durations of `NewClient` in milliseconds.
abbrev pub built_in : Client
built_in = record {
  status = parsed https "ipgw.neu.edu.cn" "/cgi-bin/rad_user_info";
  logout = parsed https "ipgw.neu.edu.cn" "/cgi-bin/srun_portal";
  captive = parsed (codes "http") "ipgw.neu.edu.cn" "/";
  cas_login = parsed https "pass.neu.edu.cn" "/tpass/login";
  service = parsed (codes "http") "ipgw.neu.edu.cn" "/srun_portal_sso";
  activation = parsed https "ipgw.neu.edu.cn" "/v1/srun_portal_sso";
  poll_interval = 3000;
  qr_lifetime = 180000;
  verify_delay = 500;
}
