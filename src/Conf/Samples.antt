-- ===== src/Conf/Samples.antt =====
-- Sample configurations of paths, for tests.
use Prim.Native.String.{String}
use rtc_simple_server.Base.{Bool, false, []}
use rtc_simple_server.Conf.PathConf.{PathConf}

-- A path with a given source, on demand or not, and a given command on demand.
abbrev pub path_conf : String → Bool → String → PathConf
path_conf source on_demand command = record {
  regexp = false;
  source = source;
  source_on_demand = on_demand;
  source_redirect = "";
  disable_publisher_override = false;
  fallback = "";
  run_on_init = "";
  run_on_demand = command;
  run_on_ready = "";
  publish = record { ips = []; user = ""; pass = "" };
  read = record { ips = []; user = ""; pass = "" };
  camera = 0;
}
