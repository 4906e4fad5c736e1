-- ===== src/Kuznyechik/Tables/T4.antt =====
-- internal/kuznyechik/tables.go: `t[4]`, 256 entries of two words.
use kubebao.Common.{ℕ, List, [], ◌∷◌}

unfoldable pub t_row4 : List (ℕ × ℕ)
t_row4 =
    (0xde4d3e3681b6c304, 0x8f11725e92ccbe9f)
    ∷ (0x8a217a33ba2934c5, 0xb532fb900b9b6027)
    ∷ (0x648be19c9b407bdf, 0xb7bd2db8a8103d4d)
    ∷ (0x5a66c8651f2784b7, 0xbfc4f31861798a26)
    ∷ (0x30e7a599a0df8c1e, 0x8d9ea4763147e3f5)
    ∷ (0x8ea7125ea2149426, 0xdb705dc4c1055843)
    ∷ (0x5ba6d2ef19b9acff, 0x45353b0db2bf843f)
    ∷ (0xfd74d6854bfcf2c8, 0xb4949084bb3faf12)
    ∷ (0x795f20d6d56db57b, 0x844111c2488a9bab)
    ∷ (0xafddce3a64a1f57a, 0xd7d4ec348db955fc)
    ∷ (0xc259e5f6c90525e8, 0x461c8631a1901660)
    ∷ (0xc399ff7ccf9b0da0, 0xbced4e2472561879)
    ∷ (0x0fca96ea22265b3e, 0x7f16b2c32be85a87)
    ∷ (0x14db0b1a78c965e9, 0x15897bc764a3d837)
    ∷ (0xa918928070630509, 0x8eb7194a226871aa)
    ∷ (0x816d84b48032cf18, 0xa466ef07eaed02c4)
    ∷ (0x2d3364d3eef242ba, 0xbe62980cd1dd4513)
    ∷ (0x45f13df85df51a83, 0xbb199c48e4ac30f2)
    ∷ (0xe6654b751113cc1f, 0xde0b5980f4742da2)
    ∷ (0x789f3a5cd3f39d33, 0x7eb0d9d79b4c95b2)
    ∷ (0xebece9483fcac7b1, 0x963cb869bad36b17)
    ∷ (0x8ce42689aeebc4b6, 0xec510eeea44a4471)
    ∷ (0xcfd047cbe7dc2e46, 0x0e2b67d8ef3750d5)
    ∷ (0xc01ad121c5fa7578, 0x713dd51bc4df0a52)
    ∷ (0x467213a55794625b, 0x76c90777522522d9)
    ∷ (0xfcb4cc0f4d62da80, 0x4e65589168f9a10b)
    ∷ (0x5d638e550d7b5c8c, 0x1c56ce731d6ea069)
    ∷ (0x7b1c1401d992e5eb, 0xb36042e82dc58799)
    ∷ (0x48789fc5732c112d, 0xf32e7da1aa0b7647)
    ∷ (0x85ebecd9980f6ffb, 0xca24495320733aa0)
    ∷ (0xd501c0b1bbad38d9, 0x9e4566c973badc7c)
    ∷ (0xbdc3999a08aa60e0, 0x9b3e628d46cba99d)
    ∷ (0xcc536996edbd569e, 0xc3fbfce759be42fe)
    ∷ (0x7050ea86e3891e36, 0xa234567fccb3e57a)
    ∷ (0x119d79fd666aed42, 0x813a15867dfbee4a)
    ∷ (0xc71f9711d7a6ad43, 0xd2afe870b8c8201d)
    ∷ (0xb2090f702a8c3bde, 0xe428d04e6d23f31a)
    ∷ (0xdb0b4cd19f154baf, 0x1ba21c1f8b9488e2)
    ∷ (0x3127bf13a641a456, 0x776f6c63e281edec)
    ∷ (0xbac6dfaa1af6b8db, 0x38ac5fe63adc83d2)
    ∷ (0xbf80ad4d04553070, 0xac1f31a72384b5af)
    ∷ (0xd948780693ea1b3f, 0x2c834f35eedb94d0)
    ∷ (0xd888628c95743377, 0xd67287203d1d9ac9)
    ∷ (0xb74f7d97342fb375, 0x709bbe0f747bc567)
    ∷ (0x9bbc03cedc43d987, 0x3408ee1676608e6d)
    ∷ (0xbb06c5201c689093, 0xc25d97f3e91a8dcb)
    ∷ (0x89a2546eb0484c1d, 0x78e260afbd12720c)
    ∷ (0x3461cdf4b8e22cfd, 0xe3dc0222fbd9db91)
    ∷ (0x121e57a06c0b959a, 0x4cea8eb9cb72fc61)
    ∷ (0xad9efaed685ea5ea, 0xe0f5bf1ee8f649ce)
    ∷ (0xb50c494038d0e3e5, 0x47baed251134d955)
    ∷ (0x88624ee4b6d66455, 0x8213a8ba6ed47c15)
    ∷ (0x090fca5036e4ab4d, 0x267547bd84397ed1)
    ∷ (0x27bf80ded277912f, 0x55c7448ee36d29e9)
    ∷ (0x32a4914eac20dc8e, 0xbabff75c5408ffc7)
    ∷ (0x054672e71ea388ab, 0x94b36e411958367d)
    ∷ (0x1c14dbc048b3e6ec, 0xc90df46f335ca8ff)
    ∷ (0x9f3a6ba3c47e7964, 0x5a4a4842bcfeb609)
    ∷ (0x842bf6539e9147b3, 0x30d58146f3b534b9)
    ∷ (0x74d682ebfbb4bed5, 0xcc76f02b062ddd1e)
    ∷ (0xd4c1da3bbd331091, 0x64b4aedca07cd265)
    ∷ (0x4ebdc37f67eee15e, 0xaa4d88df05da5211)
    ∷ (0xe9afdd9f33359721, 0xa11deb43df9c7725)
    ∷ (0xd742f466b7526849, 0xa96435e316f5c04e)
    ∷ (0x983f2d93d622a15f, 0xf9d87529c0e99c46)
    ∷ (0x49b8854f75b23965, 0x09dfb5b479cd785e)
    ∷ (0x39e86fc9963b2753, 0xabebe3cbb57e9d24)
    ∷ (0x5825fcb213d8d427, 0x88e5a03204369614)
    ∷ (0x2339e8b3ca4a31cc, 0x3b85e2da29f3118d)
    ∷ (0x97f5bb79f404fa61, 0x86cec7eaeb01c6c1)
    ∷ (0x9373d314ec395a82, 0xe88c61be219ffea5)
    ∷ (0x9a7c1944daddf1cf, 0xcef92603a5a68074)
    ∷ (0x5369023529c32ffa, 0x99b1b4a5e540f4f7)
    ∷ (0x25fcb409de88c1bf, 0x62e617a4862235db)
    ∷ (0x92b3c99eeaa772ca, 0x127da9abf259f0bc)
    ∷ (0xb04a3ba726736b4e, 0xd3098364086cef28)
    ∷ (0x654bfb169dde5397, 0x4d4ce5ad7bd63354)
    ∷ (0xc49cb94cddc7d59b, 0x1f7f734f0e413236)
    ∷ (0x8be160b9bcb71c8d, 0x4fc33385d85d6e3e)
    ∷ (0x3eed29f98467ff68, 0x0879dea0c969b76b)
    ∷ (0xf638280271e70915, 0xa5c084135a49cdf1)
    ∷ (0xe2e32318092e6cfc, 0xb049ffd43eea15c6)
    ∷ (0x8d243c03a875ecfe, 0x16a0c6fb778c4a68)
    ∷ (0xff37e2524703a258, 0x83b5c3aede70b320)
    ∷ (0x9130e7c3e0c60a12, 0xdfad329444d0e297)
    ∷ (0x3828754390a50f1b, 0x511a2bde66b8933d)
    ∷ (0xfef7f8d8419d8a10, 0x79440bbb0db6bd39)
    ∷ (0x546c44053b9ff7c1, 0x3a2389ce9957deb8)
    ∷ (0xd2048681a9f1e0e2, 0x3dd75ba20fadf633)
    ∷ (0x57ef6a5831fe8f19, 0xf7f312f12fdecc93)
    ∷ (0xef6a812527f76752, 0xf87e1e3d704d5373)
    ∷ (0xa5512a37582426ef, 0x3c7130b6bf093906)
    ∷ (0xddce106b8bd7bbdc, 0x42c1e9612445acb4)
    ∷ (0x433461424937eaf0, 0xe27a69364b7d14a4)
    ∷ (0x600d89f1837ddb3c, 0xd9ff8bec628e0529)
    ∷ (0xa394768d4ce6d69c, 0x6512c5c810d81d50)
    ∷ (0xf37e5ae56f4481be, 0x3173ea524311fb8c)
    ∷ (0xbe40b7c702cb1838, 0x56eef9b2f042bbb6)
    ∷ (0xf9f2bee853c1522b, 0xdad636d071a19776)
    ∷ (0x2bf63869fa30b2c9, 0xe7016d727e0c6145)
    ∷ (0xe1600d45034f1424, 0x7d9964eb886307ed)
    ∷ (0x7dd948bbcd501598, 0xea03b7968214a3cf)
    ∷ (0xc1dacbabc3645d30, 0x8bcc1d0e1719044b)
    ∷ (0xa1d7425a4019860c, 0x523396e275970162)
    ∷ (0xe86fc71535abbf69, 0x5bec23560c5a793c)
    ∷ (0x5ee0a008071a2454, 0xd186554cabe7b242)
    ∷ (0x73d3c4dbe9e866ee, 0x6fe4cd407a3af751)
    ∷ (0x35a1d77ebe7c04b5, 0x192dca37281fd588)
    ∷ (0x66c8d54b97bf2b4f, 0x809c7e92cd5f217f)
    ∷ (0x68c2592bb3075839, 0x057b0444357175e1)
    ∷ (0x512a36e2253c7f6a, 0xae90e78f800fe8c5)
    ∷ (0x5f20ba8201840c1c, 0x2b779d597821bc5b)
    ∷ (0x55ac5e8f3d01df89, 0xc0d241db4a91d0a1)
    ∷ (0xf0fd74b86525f966, 0xfca3716df598e9a7)
    ∷ (0xcb562fa6ffe18ea5, 0x6069c18c25a968b1)
    ∷ (0x638ea7ac891ca3e4, 0x142f10d3d4071702)
    ∷ (0xd047b256a50eb072, 0x0af608886ae2ea01)
    ∷ (0xf2be406f69daa9f6, 0xcb82224790d7f595)
    ∷ (0x20bac6eec02b4914, 0xf65579e59f7a03a6)
    ∷ (0x6fc71f1ba15b8002, 0xa6e9392f49665fae)
    ∷ (0x80ad9e3e86ace750, 0x5e972712392b0cdd)
    ∷ (0x4a3bab127fd341bd, 0xc40f2e8bcf446a75)
    ∷ (0x1ad1877a5c71169f, 0x906e01119c8d8ca9)
    ∷ (0x0486686d183da0e3, 0x6e42a654ca9e3864)
    ∷ (0x08cfd0da307a8305, 0xdc848fa857ff70c8)
    ∷ (0x6708cfc191210307, 0x7a6db6871e992f66)
    ∷ (0x832eb0638ccd9f88, 0x9347bc2d8fa21ef6)
    ∷ (0x443127725b6b32cb, 0x41e8545d376a3eeb)
    ∷ (0xd187a8dca390983a, 0xf007c09db924e418)
    ∷ (0xf47b1cd57d185985, 0x92e1d7393f06d1c3)
    ∷ (0xa8d8880a76fd2d41, 0x7446d15ff1ae7fb3)
    ∷ (0x2f705004e20d122a, 0x8943cb26b4925921)
    ∷ (0x6d842bccada4d092, 0x91c86a052c29439c)
    ∷ (0x94769524fe6582b9, 0x4b1e5cd55d88d4ea)
    ∷ (0x0c49b8b7284723e6, 0xb2c629fc9d6148ac)
    ∷ (0x2cf37e59e86c6af2, 0x44935019021b4b0a)
    ∷ (0x40b74f1f43569228, 0x2faaf209fdf4068f)
    ∷ (0xc8d501fbf580f67d, 0xadb95ab393207a9a)
    ∷ (0xfbb18a3f5f3e02bb, 0xedf765fa14ee8b44)
    ∷ (0xfa7190b559a02af3, 0x1706adefc728855d)
    ∷ (0xdacb565b998b63e7, 0xe153d40a585286fb)
    ∷ (0xb4cc53ca3e4ecbad, 0xbd4b2530c2f2d74c)
    ∷ (0xce105d41e142060e, 0xf4daafcd3cf15ecc)
    ∷ (0x0e0a8c6024b87376, 0x85e77ad6f82e549e)
    ∷ (0x07054630125cd83b, 0xa3923d6b7c172a4f)
    ∷ (0x3622f923b41d7c6d, 0xd4fd51089e96c7a3)
    ∷ (0x3f2d337382f9d720, 0xf28816b51aafb972)
    ∷ (0x6a816dfcbff808a9, 0x325a576e503e69d3)
    ∷ (0xc6df8d9bd138850b, 0x285e20656b0e2e04)
    ∷ (0x4cfef7a86b11b1ce, 0x9d6cdbf560954e23)
    ∷ (0xe4267fa21dec9c8f, 0xe92a0aaa913b3190)
    ∷ (0xdc0e0ae18d499394, 0xb8302174f783a2ad)
    ∷ (0xdf8d24bc8728eb4c, 0x75e0ba4b410ab086)
    ∷ (0x9635a1f3f29ad229, 0x7c3f0fff38c7c8d8)
    ∷ (0x90f0fd49e658225a, 0x255cfa819716ec8e)
    ∷ (0xe32339920fb044b4, 0x4ab837c1ed2c1bdf)
    ∷ (0x8f6708d4a48abc6e, 0x218195d112c3565a)
    ∷ (0xeeaa9baf21694f1a, 0x028fd628a38b5d6a)
    ∷ (0x243cae83d816e9f7, 0x9817dfb155e43bc2)
    ∷ (0x267f9a54d4e9b967, 0xaf368c9b30ab27f0)
    ∷ (0xa2546c074a78fed4, 0x9fe30dddc31e1349)
    ∷ (0x42f47bc84fa9c2b8, 0x188ba12398bb1abd)
    ∷ (0x03832e5d0a6178d8, 0xcdd09b3fb689122b)
    ∷ (0xece9af782d961f8a, 0x35ae8502c6c44158)
    ∷ (0x6c443146ab3af8da, 0x6b39a210ffef4d85)
    ∷ (0x0000000000000000, 0x0000000000000000)
    ∷ (0xb68f671d32b19b3d, 0x8a6a761aa7bdcb7e)
    ∷ (0xab5ba6577c9c5599, 0xb9964a6047276d98)
    ∷ (0xc55ca3c6db59fdd3, 0xe58ebb5add873c2f)
    ∷ (0x75169861fd2a969d, 0x3687383ed5ebd307)
    ∷ (0x7190f00ce517367e, 0x58c59e6a1f75eb63)
    ∷ (0xb18a212d20ed4306, 0x29f84b71dbaae131)
    ∷ (0xaa9bbcdd7a027dd1, 0x4367827594e16381)
    ∷ (0xd3c49c0baf6fc8aa, 0xc72693b7dc6bf82a)
    ∷ (0x1dd4c14a4e2dcea4, 0x33fc3c7ae09aa6e6)
    ∷ (0xb945f1f71097c003, 0xf57cc4d98c5591f9)
    ∷ (0x8668c284926e1723, 0x07f4d26c96fa288b)
    ∷ (0x105d637760f4c50a, 0x7bcbdd93ae3de053)
    ∷ (0x1e57ef17444cb67c, 0xfe2ca7455613b4cd)
    ∷ (0x50ea2c6823a25722, 0x54612f9a53c9e6dc)
    ∷ (0xa6d2046a52455e37, 0xf1a1ab8909802b2d)
    ∷ (0x6e070591a7c5a84a, 0x5c18f13a9aa051b7)
    ∷ (0xf13d6e3263bbd12e, 0x0652b978265ee7be)
    ∷ (0x37e2e3a9b2835425, 0x2e0c991d4d50c9ba)
    ∷ (0x3cae1d2e8898aff8, 0x3f588d8aac26ab59)
    ∷ (0x0b4cfe873a1bfbdd, 0x11541497e17662e3)
    ∷ (0x1758254772a81d31, 0xd859e0f8d22aca1c)
    ∷ (0x61cd937b85e3f374, 0x230e43f9b1480b30)
    ∷ (0x29b50cbef6cfe259, 0xd0203e581b437d77)
    ∷ (0xf5bb065f7b8671cd, 0x68101f2cecc0dfda)
    ∷ (0xf7f832887779215d, 0x5f314c06898fc3e8)
    ∷ (0x7f9a7c6cc1af4508, 0xdd22e4bce75bbffd)
    ∷ (0xa7121ee054db767f, 0x0b50639cda462534)
    ∷ (0x7213de51ef764ea6, 0x95150555a9fcf948)
    ∷ (0xea2cf3c23954eff9, 0x6ccd707c6915650e)
    ∷ (0x024334d70cff5090, 0x3721532a654f1c32)
    ∷ (0x1892b3ad508e460f, 0xa74f523bf9c2909b)
    ∷ (0x3d6e07a48e0687b0, 0xc5a9459f7fe0a540)
    ∷ (0x624ebd268f828bac, 0xeeded8c607c1191b)
    ∷ (0x4177559545c8ba60, 0xd55b3a1c2e320896)
    ∷ (0xe0a017cf05d13c6c, 0x8768acfe5ba509f4)
    ∷ (0x47b2092f510a4a13, 0x8c38cf6281e32cc0)
    ∷ (0x9cb945fece1f01bc, 0x979ad37d0a77a422)
    ∷ (0xae1dd4b0623fdd32, 0x2d2524215e7f5be5)
    ∷ (0x95b68faef8fbaaf1, 0xb1ef94c08e4edaf3)
    ∷ (0xcd93731ceb237ed6, 0x390a34f28a784ce7)
    ∷ (0xa01758d04687ae44, 0xa8c25ef7a6510f7b)
    ∷ (0x2eb04a8ee4933a62, 0x73b2033367545738)
    ∷ (0xbc0383100e3448a8, 0x61cfaa98950da784)
    ∷ (0x7e5a66e6c7316d40, 0x27d32ca9349db1e4)
    ∷ (0x0a8ce40d3c85d395, 0xeba5dc8232b06cfa)
    ∷ (0x28751634f051ca11, 0x2ad1f64dc885736e)
    ∷ (0x3a6b41949c5a5f8b, 0x663b78f403f78f0f)
    ∷ (0xd682eeecb1cc4001, 0x5395fdf6c533ce57)
    ∷ (0x7755acb6f1d5c60d, 0x01a66b14b0a4cf35)
    ∷ (0x6b417776b96620e1, 0xc8ab9f7b83f867ca)
    ∷ (0x87a8d80e94f03f6b, 0xfd051a79453c2692)
    ∷ (0xed29b5f22b0837c2, 0xcf5f4d1715024f41)
    ∷ (0x217adc64c6b5615c, 0x0ca4b1f04cbc0dbf)
    ∷ (0xe5e665281b72b4c7, 0x13dbc2bf42fd3f89)
    ∷ (0x22f9f239ccd41984, 0xc1742acffa351f94)
    ∷ (0x7695b63cf74bee45, 0xfb57a3016362c12c)
    ∷ (0x16983fcd74363579, 0x22a828ed01ecc405)
    ∷ (0xb885eb7d1609e84b, 0x0f8d0ccc5f939fe0)
    ∷ (0x01c01a8a069e2848, 0xfaf1c815d3c60e19)
    ∷ (0x59e5e6381546fc6f, 0x72146827d7f0980d)
    ∷ (0xa49130bd5eba0ea7, 0xc680f8a36ccf371f)
    ∷ (0xac5ee0676ec08da2, 0x1a04770b3b3047d7)
    ∷ (0x82eeaae98a53b7c0, 0x69b674385c6410ef)
    ∷ (0x9efa7129c2e0512c, 0xa0bb80576f38b810)
    ∷ (0x2a3622e3fcae9a81, 0x1df0a567adca6f5c)
    ∷ (0x7c195231cbce3dd0, 0x10f27f8351d2add6)
    ∷ (0x99ff3719d0bc8917, 0x0329bd3c132f925f)
    ∷ (0x7adc0e8bdf0ccda3, 0x49918afdfe038980)
    ∷ (0x13de4d2a6a95bdd2, 0xb61b46ac18b4f278)
    ∷ (0xe7a551ff178de457, 0x24fa919527b223bb)
    ∷ (0x690243a1b5997071, 0xff8acc51e6b77bf8)
    ∷ (0x151b11907e574da1, 0xef78b3d2b765d62e)
    ∷ (0x3bab5b1e9ac477c3, 0x9ccab0e1d0318116)
    ∷ (0x562f70d23760a751, 0x0d02dae4fc18c28a)
    ∷ (0xc9151b71f31ede35, 0x574892a640e67483)
    ∷ (0x1952a92756106e47, 0x5dbe9a2e2a049e82)
    ∷ (0x4bfbb198794d69f5, 0x3efee69e1c82646c)
    ∷ (0x52a918bf2f5d07b2, 0x63407cb03686faee)
    ∷ (0x1b119df05aef3ed7, 0x6a9fc9044f4b82b0)
    ∷ (0x4f7dd9f56170c916, 0x50bc40cad61c5c08)
    ∷ (0x4d3eed226d8f9986, 0x679d13e0b353403a)
    ∷ (0x06c55cba14c2f073, 0x5963f57eafd12456)
    ∷ (0x5ca394df0be574c4, 0xe6a70666cea8ae70)
    ∷ (0x1f97f59d42d29e34, 0x04dd6f5085d5bad4)
    ∷ (0x33648bc4aabef4c6, 0x404e3f4987cef1de)
    ∷ (0xb3c915fa2c121396, 0x1ed9185bbee5fd03)
    ∷ (0xca96352cf97fa6ed, 0x9a980999f66f66a8)
    ∷ (0x9d795f74c88129f4, 0x6d6b1b68d9b1aa3b)
    ∷ (0x0d89a23d2ed90bae, 0x4837e1e94ea746b5)
    ∷ (0xf832a462555f7a63, 0x2027fec5a267996f)
    ∷ []
