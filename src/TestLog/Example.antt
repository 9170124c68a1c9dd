-- ===== src/TestLog/Example.antt =====
-- A server for tests.
use xrpl_hive.Base.{◌+◌, true, false, [], Bytes, Text, slice, pos, refl}
use xrpl_hive.TestLog.Loader.{Server}
use xrpl_hive.TestLog.Loader.Fetch.{Serves}

-- A server with one file.
unfoldable pub static_server : Bytes → Server
static_server file name (pos a) (pos b) = record {
  ok = true;
  status = 206;
  body = slice file a (b + 1);
}
static_server file name _ _ = record { ok = false; status = 416; body = [] }

pub static_server-Serves : (file : Bytes) (name : Text) → Serves (static_server file) name file
unfolding static_server
static_server-Serves file name a b h k = refl
