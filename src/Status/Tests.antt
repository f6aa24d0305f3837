-- ===== src/Status/Tests.antt =====
-- Runs of domain/peer/status.go at concrete errors and codes.
use pluginprotocol.Errors.{GoError, sentinel, Sentinel, wrap, send_queue_full}
use pluginprotocol.Prelude.{◌≡◌, codes, some}
use pluginprotocol.Status.{err, code_of}
use pluginprotocol.Status.Mapping.{err-code_of, Surfaces}

abbrev full_queue : GoError
full_queue = wrap (codes "send") (sentinel send_queue_full)

err-code_of_example :
    (s : Sentinel) × (err (code_of full_queue) ≡ some (sentinel s)) × Surfaces full_queue s
err-code_of_example = err-code_of full_queue
