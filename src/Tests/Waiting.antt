-- ===== src/Tests/Waiting.antt =====
-- A run of the polling loops of crates/hyperbox-server.
use hyperbox.Server.Runtime.Watch.{wait_process, cancel_process}
use hyperbox.Server.Runtime.Waiting.{Ends, wait_process-cancel_process-Ended}
use hyperbox.Tests.Runtime.{env, start}

-- The clock of `env` shows the count of its readings.
wait_process-cancel_process-Ended_example :
    Ends env (λ fuel. wait_process env fuel 100 5) start
    × Ends env (λ fuel. cancel_process env fuel 100) start
wait_process-cancel_process-Ended_example =
    wait_process-cancel_process-Ended env (λ t. (t, λ m h. h)) 100 5 start
