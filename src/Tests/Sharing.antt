-- ===== src/Tests/Sharing.antt =====
-- Invocations that share the slots of one invoker.
use rpc.Base.{ℕ, ◌≡◌, refl, none, List, [], ◌∷◌, codes, arith}
use rpc.Base.Int.{is_positive}
use rpc.Proxy.Invoke.{payload_limit}
use rpc.Proxy.Invoke.Slots.{
  Arguments, arriving, holding, Turn, slot, Traffic, enter, leave, advance_invocation, step_traffic,
  run_traffic,
}
use rpc.Proxy.Invoke.Slots.Limit.{in_flight, IsInvocation, IsSound, run_traffic-IsSound}
use rpc.Tests.Invoking.{set, values, target, invoker, env, metadata}

abbrev ask : Arguments
ask = record {
  environment = env;
  target = target;
  method = codes "s.M";
  payload = 1 ∷ 2 ∷ [];
  metadata = metadata;
}

abbrev three : Traffic
three = record { used = 0; invocations = arriving ask ∷ arriving ask ∷ arriving ask ∷ [] }

three-IsSound : IsSound set values invoker 2 three
three-IsSound = record {
  counted = unfold in_flight in refl;
  limited = omega arith;
  each = unfold IsInvocation in (tt, (tt, (tt, tt)));
}

abbrev crowded : List (ℕ × Turn)
crowded =
    (0, slot)
    ∷ (1, slot)
    ∷ (2, slot)
    ∷ (0, slot)
    ∷ (1, slot)
    ∷ (2, slot)
    ∷ (1, slot)
    ∷ (2, slot)
    ∷ []

run_traffic-IsSound_example :
    IsSound set values invoker 2 (run_traffic set values invoker crowded three)
run_traffic-IsSound_example =
    run_traffic-IsSound set values invoker 2 refl crowded three three-IsSound

-- The third invocation waits for a slot until another has returned.
two_at_once : run_traffic set values invoker crowded three ≡ record {
  used = 2;
  invocations = holding ask ∷ leave set values invoker none ask ∷ holding ask ∷ [];
}
unfolding run_traffic step_traffic advance_invocation enter payload_limit is_positive
two_at_once = refl
