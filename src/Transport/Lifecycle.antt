-- ===== src/Transport/Lifecycle.antt =====
-- What an operation on the transport keeps: the state, the detached flag, and, while the transport
-- is not connected, what usrsctp has taken.
pub mod Changes
pub mod Runs
mod Tests
use rawrtc_data_channel.Base.{
  ℕ, ◌≡◌, refl, ap, ◌∙◌, Bool, true, false, Option, none, some, if◌then◌else◌, List,
}
use rawrtc_data_channel.Transport.{Transport, Sent, TransportState}
use rawrtc_data_channel.Transport.Send.{is_connected}

pub record Keeps (x y : Transport) : Type 0 where
  pub same_state : y.state ≡ x.state
  pub same_flag : y.is_detached ≡ x.is_detached
  pub same_wire : is_connected x.state ≡ false → y.wire ≡ x.wire

pub Keeps-refl : (x : Transport) → Keeps x x
Keeps-refl x = record { same_state = refl; same_flag = refl; same_wire = λ c. refl }

pub Keeps-trans : {x y z : Transport} → Keeps x y → Keeps y z → Keeps x z
Keeps-trans {x} {y} {z} p q = record {
  same_state = q.same_state ∙ p.same_state;
  same_flag = q.same_flag ∙ p.same_flag;
  same_wire = λ c. q.same_wire (ap is_connected p.same_state ∙ c) ∙ p.same_wire c;
}

pub Keeps-same :
    {x y : Transport}
    → y.state ≡ x.state
    → y.is_detached ≡ x.is_detached
    → y.wire ≡ x.wire
    → Keeps x y
Keeps-same s d w = record { same_state = s; same_flag = d; same_wire = λ c. w }

pub if-Keeps :
    {x : Transport} (b : Bool) (y z : Transport)
    → Keeps x y
    → Keeps x z
    → Keeps x (if b then y else z)
if-Keeps true y z p q = p
if-Keeps false y z p q = q

pub pair-Keeps {ℓ} :
    {C : Type ℓ} {x : Transport} (b : Bool) (p q : C × Transport)
    → Keeps x p.1
    → Keeps x q.1
    → Keeps x (if b then p else q).1
pair-Keeps true p q s t = s
pair-Keeps false p q s t = t

pub maybe-Keeps {ℓ} :
    {A : Type ℓ} {x : Transport} (o : Option A) (z : Transport) (f : A → Transport)
    → Keeps x z
    → ((a : A) → Keeps x (f a))
    → (let r : Transport = elim o [ none ↦ z | some a ↦ f a ] in Keeps x r)
maybe-Keeps none z f p q = p
maybe-Keeps (some a) z f p q = q a

pub maybe_pair-Keeps {ℓ κ} :
    {A : Type ℓ} {C : Type κ} {x : Transport} (o : Option A) (z : C × Transport)
    (f : A → C × Transport)
    → Keeps x z.1
    → ((a : A) → Keeps x (f a).1)
    → (let r : C × Transport = elim o [ none ↦ z | some a ↦ f a ] in Keeps x r.1)
maybe_pair-Keeps none z f p q = p
maybe_pair-Keeps (some a) z f p q = q a
