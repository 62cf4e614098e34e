-- ===== src/Firecracker/Api.antt =====
-- `FirecrackerApiClient` of crates/hyperbox-firecracker/src/api.rs: what it asks of a machine over
-- its socket. The text of an error of the exchange is the host's.
use hyperbox.Prelude.{
  ℕ, ◌^◌, Bool, true, Option, none, some, List, [], ◌∷◌, ◌++◌, Text, codes, leb, length, print,
  parse_unsigned, split_once, split_whitespace, first_line, if◌then◌else◌,
}
use hyperbox.Core.Error.{Result, ok, err}
use hyperbox.Server.Naming.{utf8}
use hyperbox.Server.Monad.{Action, ◌>>=◌, pure, throw, lift}
use hyperbox.Firecracker.{
  Host, Firecracker, Json, string, number, bool, object, Fields, no_field, field, ApiResponse,
  on_host,
}

-- The second of the words
abbrev second : List Text → Option Text
second [] = none
second (a ∷ []) = none
second (a ∷ b ∷ words) = some b

abbrev code_of : Option Text → Option ℕ
code_of none = none
code_of (some v) = parse_unsigned (2 ^ 16) v

abbrev response_with : Text → Option ℕ → Result Text ApiResponse
response_with body none = err (codes "missing HTTP status code")
response_with body (some status_code) = ok (record { status_code = status_code; body = body })

abbrev response_of : Option (Text × Text) → Result Text ApiResponse
response_of none = err (codes "invalid HTTP response from firecracker")
response_of (some (head, body)) =
    response_with body (code_of (second (split_whitespace [] (first_line head))))

-- Of the text that the bytes are read as.
unfoldable pub parse_http_response : Text → Result Text ApiResponse
parse_http_response text = response_of (split_once (13 ∷ 10 ∷ 13 ∷ 10 ∷ []) text)

abbrev line : Text → Text
line s = s ++ (13 ∷ 10 ∷ [])

-- The request that `send` writes.
unfoldable pub request_text : Text → Text → Text → Text
request_text method path body =
    line (method ++ (codes " " ++ (path ++ codes " HTTP/1.1")))
    ++ (line (codes "Host: localhost")
        ++ (line (codes "Accept: application/json")
            ++ (line (codes "Content-Type: application/json")
                ++ (line (codes "Content-Length: " ++ print (length (utf8 body)))
                    ++ (line (codes "Connection: close") ++ (line [] ++ body))))))

unfoldable pub ensure_success : {W : Type 0} → ApiResponse → Action Text W (Unit {0})
ensure_success response =
    if leb 400 response.status_code
    then throw (
        codes "firecracker api failed with status "
        ++ (print response.status_code ++ (codes ": " ++ response.body)))
    else pure tt

module _ {F : Type 0} (host : Host F) (socket_path : Text) where
  abbrev or_empty : Option Text → Text
  or_empty none = []
  or_empty (some body) = body

  unfoldable pub send : Text → Text → Option Text → Action Text (Firecracker F) ApiResponse
  send method path body = do
    response ← on_host (host.exchange socket_path (request_text method path (or_empty body)))
    lift (parse_http_response (host.utf8_lossy response))

  unfoldable pub put_json : Text → Json → Action Text (Firecracker F) ApiResponse
  put_json path payload = send (codes "PUT") path (some (host.json_text payload))

  unfoldable pub put : Text → Fields → Action Text (Firecracker F) (Unit {0})
  put path fields = do response ← put_json path (object fields); ensure_success response

  unfoldable pub set_machine_config : ℕ → ℕ → Action Text (Firecracker F) (Unit {0})
  set_machine_config vcpu_count mem_size_mib = put (codes "/machine-config") (
      field (codes "vcpu_count") (number vcpu_count) (
        field (codes "mem_size_mib") (number mem_size_mib)
          (field (codes "track_dirty_pages") (bool true) no_field)))

  unfoldable pub set_boot_source : Text → Text → Action Text (Firecracker F) (Unit {0})
  set_boot_source kernel_image_path boot_args = put (codes "/boot-source") (
      field (codes "kernel_image_path") (string kernel_image_path)
        (field (codes "boot_args") (string boot_args) no_field))

  unfoldable pub set_rootfs : Text → Bool → Action Text (Firecracker F) (Unit {0})
  set_rootfs path_on_host is_read_only = put (codes "/drives/rootfs") (
      field (codes "drive_id") (string (codes "rootfs")) (
        field (codes "path_on_host") (string path_on_host) (
          field (codes "is_root_device") (bool true)
            (field (codes "is_read_only") (bool is_read_only) no_field))))

  unfoldable pub set_vsock : ℕ → Text → Action Text (Firecracker F) (Unit {0})
  set_vsock guest_cid uds_path = put (codes "/vsock") (
      field (codes "vsock_id") (string (codes "agent")) (
        field (codes "guest_cid") (number guest_cid)
          (field (codes "uds_path") (string uds_path) no_field)))

  unfoldable pub attach_network : Text → Action Text (Firecracker F) (Unit {0})
  attach_network tap_name = put (codes "/network-interfaces/eth0") (
      field (codes "iface_id") (string (codes "eth0")) (
        field (codes "host_dev_name") (string tap_name)
          (field (codes "guest_mac") (string (codes "06:00:AC:10:00:02")) no_field)))

  unfoldable pub start_instance : Action Text (Firecracker F) (Unit {0})
  start_instance =
      put (codes "/actions") (field (codes "action_type") (string (codes "InstanceStart")) no_field)
