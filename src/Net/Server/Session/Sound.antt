-- ===== src/Net/Server/Session/Sound.antt =====
-- tcpServer.cpp and tcpConnection.cpp: the order of a connection's functors.
use tcp_net_library.Base.{◌≡◌, Bool, true, false, List, [], ◌∷◌, ◌++◌}
use tcp_net_library.Net.Connection.{
  State, connecting, connected, disconnecting, disconnected, TcpConnection, WriteResult,
  connect_eestablished, connect_destory,
}
use tcp_net_library.Net.Connection as Connection
use tcp_net_library.Net.Connection.Lifecycle.{Call, establish, destroy}
use tcp_net_library.Net.Connection.Stays.{IsUse}
use tcp_net_library.Net.Server.Session.{queued}

pub data Stage : Type 0 where
  waiting living over : Stage

abbrev pub stage : State → Stage
stage connecting = waiting
stage connected = living
stage disconnecting = living
stage disconnected = over

-- What may stand in the queue at a stage, by whether the server still has the connection: it is
-- established once, and destroyed once, after the server has let it go.
pub data Due : Stage → Bool → List Call → Type 0 where
  kept : Due living true []
  gone : Due over false []
  begins : {b : Bool} {io : List Call} → Due living b io → Due waiting b (establish ∷ io)
  ends : {b : Bool} {io : List Call} → Due over b io → Due living b (destroy ∷ io)
  use_living :
      {b : Bool} {c : Call} {io : List Call} → IsUse c → Due living b io → Due living b (c ∷ io)
  use_over : {b : Bool} {c : Call} {io : List Call} → IsUse c → Due over b io → Due over b (c ∷ io)

abbrev pub AllUse : List Call → Type 0
AllUse [] = Unit {0}
AllUse (c ∷ cs) = IsUse c × AllUse cs

pub queued-AllUse : (answer : WriteResult) (es : List Connection.Effect) → AllUse (queued answer es)
queued-AllUse answer [] = tt
queued-AllUse answer (Connection.Effect.queues_send xs ∷ es) = (tt, queued-AllUse answer es)
queued-AllUse answer (Connection.Effect.queues_shutdown ∷ es) = (tt, queued-AllUse answer es)
queued-AllUse answer (Connection.Effect.updates e ∷ es) = queued-AllUse answer es
queued-AllUse answer (Connection.Effect.removes_channel ∷ es) = queued-AllUse answer es
queued-AllUse answer (Connection.Effect.shuts_down_write ∷ es) = queued-AllUse answer es
queued-AllUse answer (Connection.Effect.connection_callback st ∷ es) = queued-AllUse answer es
queued-AllUse answer (Connection.Effect.message_callback ∷ es) = queued-AllUse answer es
queued-AllUse answer (Connection.Effect.close_callback ∷ es) = queued-AllUse answer es
queued-AllUse answer (Connection.Effect.reads_error ∷ es) = queued-AllUse answer es

uses-living : {b : Bool} (us : List Call) → AllUse us → Due living b [] → Due living b us
uses-living [] a d = d
uses-living (u ∷ us) a d = use_living a.0 (uses-living us a.1 d)

uses-over : {b : Bool} (us : List Call) → AllUse us → Due over b [] → Due over b us
uses-over [] a d = d
uses-over (u ∷ us) a d = use_over a.0 (uses-over us a.1 d)

-- Uses may be queued at any time.
pub Due-uses :
    {st : Stage} {b : Bool} {io : List Call} (us : List Call)
    → AllUse us
    → Due st b io
    → Due st b (io ++ us)
Due-uses us a kept = uses-living us a kept
Due-uses us a gone = uses-over us a gone
Due-uses us a (begins d) = begins (Due-uses us a d)
Due-uses us a (ends d) = ends (Due-uses us a d)
Due-uses us a (use_living u d) = use_living u (Due-uses us a d)
Due-uses us a (use_over u d) = use_over u (Due-uses us a d)

-- When the server lets the connection go, its destruction is queued.
pub Due-destroy :
    {st : Stage} {io : List Call} (b : Bool)
    → b ≡ true
    → Due st b io
    → Due st false (io ++ destroy ∷ [])
Due-destroy b h kept = ends gone
Due-destroy b h gone = absurd (cc h)
Due-destroy b h (begins d) = begins (Due-destroy b h d)
Due-destroy b h (ends d) = ends (Due-destroy b h d)
Due-destroy b h (use_living u d) = use_living u (Due-destroy b h d)
Due-destroy b h (use_over u d) = use_over u (Due-destroy b h d)
