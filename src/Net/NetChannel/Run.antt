-- ===== src/Net/NetChannel/Run.antt =====
-- A method on `&mut self` that may fail: the channel that it leaves, also when it fails.
use quickplay_server.Base.{Outcome, ok, err, panic, stuck}
use quickplay_server.Errors.{Error}
use quickplay_server.Net.NetChannel.State.{NetChannel}

abbrev pub Run : Type 0 → Type 0
Run A = NetChannel → Outcome Error A × NetChannel

abbrev pub then_run :
    {A B : Type 0} → Outcome Error A → NetChannel → (A → Run B) → Outcome Error B × NetChannel
then_run (ok a) c f = f a c
then_run (err e) c f = (err e, c)
then_run panic c f = (panic, c)
then_run stuck c f = (stuck, c)

infixl 5 ◌>>=◌ ◌>>◌
abbrev pub ◌>>=◌ : {A B : Type 0} → Run A → (A → Run B) → Run B
◌>>=◌ m f c = then_run (m c).0 (m c).1 f

abbrev pub ◌>>◌ : {A B : Type 0} → Run A → Run B → Run B
m >> k = m >>= λ _. k

abbrev pub return : {A : Type 0} → A → Run A
return a c = (ok a, c)

-- A result that does not depend on the channel.
abbrev pub lift : {A : Type 0} → Outcome Error A → Run A
lift r c = (r, c)

abbrev pub fail : {A : Type 0} → Error → Run A
fail e c = (err e, c)

abbrev pub get : Run NetChannel
get c = (ok c, c)

abbrev pub put : NetChannel → Run (Unit {0})
put c' c = (ok tt, c')
